-- ===== src/Identity/AuthorizationGrant/Covering.antt =====
-- What a grant covers: services/identity/internal/domain/authorizationgrant.
use careeria.Base.{
  ◌≡◌, ◌↔◌, ◌≤◌, refl, sym, Bool, true, false, not, ◌&&◌, Option, none, some, List, [], ◌∷◌, ◌++◌,
  is_empty, contains, nat_comparable, list_comparable, Distinct, Within, arith, equal, Bool-cases,
  ◌∙◌, inl, inr, ap, equal_list_iff,
}
use careeria.Base.Guards.{guarded, branched, checked}
use careeria.Base.Text.{Text}
use careeria.Domain.{Time}
use careeria.Identity.AuthorizationGrant.{
  Error, AuthorizationGrant, validate_scopes, validate_active, ends_before, has_expired, all_in,
  covers, merge_scopes, extend,
}

pub all_in-Within :
    (granted scopes : List Text) → (all_in granted scopes ≡ true) ↔ Within scopes granted
unfolding all_in
all_in-Within granted [] = (λ h. tt, λ w. refl)
all_in-Within granted (s ∷ scopes) =
    let (to, from) = all_in-Within granted scopes in
    (λ h. (ground (arith, h), to (ground (arith, h))), λ w. ground (arith, w.0, from w.1))

-- A grant covers a request exactly where it is active, the request is not empty, and each scope
-- asked for has been granted.
covers_iff :
    (g : AuthorizationGrant) (scopes : List Text) (now : Time)
    → (covers (some g) scopes now ≡ true)
      ↔ ((validate_active g now ≡ none) × (is_empty scopes ≡ false) × Within scopes g.scopes)
unfolding covers
covers_iff g scopes now =
    let (to, from) = all_in-Within g.scopes scopes in
    (
      λ h. (ground (arith, h), ground (arith, h), to (ground (arith, h))),
      λ w. ground (arith, w.0, w.1, from w.2),
    )

pub merge_scopes-contains :
    (seen scopes : List Text) (a : Text)
    → contains (merge_scopes seen scopes) a ≡ (contains scopes a && not (contains seen a))
unfolding merge_scopes
merge_scopes-contains seen [] a = refl
merge_scopes-contains seen (s ∷ scopes) a =
    branched (λ xs. contains xs a ≡ (contains (s ∷ scopes) a && not (contains seen a)))
      (contains seen s) _ _
      (λ h. elim (Bool-cases (equal s a)) [
        | inl here ↦ ground (arith, same here, merge_scopes-contains seen scopes a)
        | inr away ↦ ground (arith, merge_scopes-contains seen scopes a)
      ])
      (λ h. elim (Bool-cases (equal s a)) [
        | inl here ↦ ground (arith, same here)
        | inr away ↦ ground (arith, merge_scopes-contains (s ∷ seen) scopes a)
      ])
  where
    same : equal s a ≡ true → contains seen s ≡ contains seen a
    same h = ap (λ x. contains seen x) ((equal_list_iff s a).0 h)

pub merge_scopes-Distinct : (seen scopes : List Text) → Distinct (merge_scopes seen scopes)
unfolding merge_scopes
merge_scopes-Distinct seen [] = tt
merge_scopes-Distinct seen (s ∷ scopes) =
    branched Distinct (contains seen s) _ _ (λ h. merge_scopes-Distinct seen scopes)
      (λ h. (
        rw (merge_scopes-contains (s ∷ seen) scopes s, (equal_list_iff s s).1 refl)
            (not_there (contains scopes s)),
        merge_scopes-Distinct (s ∷ seen) scopes,
      ))
  where
    not_there : (b : Bool) → (b && not true) ≡ false
    not_there b = ground arith

Within-cong :
    (request xs ys : List Text)
    → ((a : Text) → contains xs a ≡ contains ys a)
    → Within request xs
    → Within request ys
Within-cong [] xs ys same w = tt
Within-cong (s ∷ request) xs ys same w = (sym (same s) ∙ w.0, Within-cong request xs ys same w.1)

merged-contains :
    (scopes : List Text) (a : Text) → contains (merge_scopes [] scopes) a ≡ contains scopes a
merged-contains scopes a = ground (arith, merge_scopes-contains [] scopes a)

-- What a grant is after `Extend` without an error.
abbrev Extended : AuthorizationGrant → List Text → Option Time → Time → AuthorizationGrant → Type 0
Extended g scopes expires_at now g2 =
    (validate_active g now ≡ none)
    × (g2 ≡ record g {
      scopes = merge_scopes [] (g.scopes ++ scopes);
      expires_at = expires_at;
      updated_at = now;
    })

extend-Extended :
    (g : AuthorizationGrant) (scopes : List Text) (expires_at : Option Time) (now : Time)
    (g2 : AuthorizationGrant)
    → extend g scopes expires_at now ≡ (g2, none)
    → Extended g scopes expires_at now g2
unfolding extend
extend-Extended g scopes expires_at now g2 =
    checked P (validate_active g now) _ _ (λ e h. cc h)
      (λ active.
        checked P (validate_scopes scopes) _ _ (λ e h. cc h)
          (λ valid.
            guarded P (ends_before expires_at now) _ _ (λ h. cc h) (λ ends h. (active, cc h))))
  where
    P : AuthorizationGrant × Option Error → Type 0
    P r = r ≡ (g2, none) → Extended g scopes expires_at now g2

active_later :
    (g : AuthorizationGrant) (merged : List Text) (expires_at : Option Time) (now later : Time)
    → validate_active g now ≡ none
    → now ≤ later
    → has_expired expires_at later ≡ false
    → validate_active
        (record g { scopes = merged; expires_at = expires_at; updated_at = now })
        later
      ≡ none
unfolding validate_active
active_later g merged expires_at now later active order open_until = ground arith

-- After `Extend`, and until it ends, a grant covers just the requests for what was granted before
-- or is new, and lists no scope twice.
pub extend-covers :
    (g g2 : AuthorizationGrant) (scopes : List Text) (expires_at : Option Time) (now later : Time)
    (request : List Text)
    → extend g scopes expires_at now ≡ (g2, none)
    → now ≤ later
    → has_expired expires_at later ≡ false
    → Distinct g2.scopes
      × ((covers (some g2) request later ≡ true)
          ↔ ((is_empty request ≡ false) × Within request (g.scopes ++ scopes)))
extend-covers g g2 scopes expires_at now later request extended order open_until =
    let (active, after_it) = extend-Extended g scopes expires_at now g2 extended in
    let (to, from) = covers_iff g2 request later in
    let merged : g2.scopes ≡ merge_scopes [] (g.scopes ++ scopes) = ap (λ x. x.scopes) after_it in
    let active_then : validate_active g2 later ≡ none =
      rw after_it (active_later g _ expires_at now later active order open_until) in
    (
      rw merged (merge_scopes-Distinct [] (g.scopes ++ scopes)),
      (
        λ h.
            let (_, some_scope, within) = to h in
            (
              some_scope,
              Within-cong request _ _ (merged-contains (g.scopes ++ scopes)) (rw (← merged) within),
            ),
        λ w. from (
          active_then,
          w.0,
          rw merged
              (Within-cong request _ _ (λ a. sym (merged-contains (g.scopes ++ scopes) a)) w.1),
        ),
      ),
    )
