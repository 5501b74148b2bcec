-- ===== src/Identity/RefreshTokenFamily/Safety.antt =====
-- What a call of `Rotate` does to the invariant of a family, and to the family where it fails.
use careeria.Base.{
  ℕ, ◌≡◌, ◌≤◌, refl, sym, ap, ◌∙◌, inl, inr, false, none, some, List, [], ◌∷◌, ◌++◌, map, arith,
  is_some, All-append, contains, Distinct-snoc, err, nat_comparable, list_comparable, Option-cases,
}
use mathlib.Core.List.{map-append, append_assoc}
use careeria.Base.Text.{Text}
use careeria.Domain.{Time, Uuid}
use careeria.Identity.RefreshTokenFamily.Errors.{Error}
use careeria.Identity.RefreshTokenFamily.Token.{RefreshToken}
use careeria.Identity.RefreshTokenFamily.Times.{
  changed-rotated, changed-fresh, family-changed-rotated, family-changed-reuse,
}
use careeria.Identity.RefreshTokenFamily.Listing.{Found, All-split, All-replace, map-replace}
use careeria.Identity.RefreshTokenFamily.Revocation.{
  revoked_family, revoked_family-WellFormed, tokens-at,
}
use careeria.Identity.RefreshTokenFamily.Invariant.{
  link, IsChain, IsChain-unused, IsChain-extend, WellFormed,
}
use careeria.Identity.RefreshTokenFamily.Presenting.{Rotatable, marked, marked-ok}
use careeria.Identity.RefreshTokenFamily.Rotation.{Issued, rotated_family, rotate-split}
use careeria.Identity.RefreshTokenFamily.{
  RefreshTokenFamily, NextToken, family_changed_at, rotate, reuse_detected_revoke_reason,
  token_index, has_token_hash,
}

contains-ids :
    (ts : List RefreshToken) (id : Uuid)
    → token_index ts id ≡ none
    → contains (map (λ t. t.id) ts) id ≡ false
unfolding token_index
contains-ids [] id h = refl
contains-ids (t ∷ ts) id h = elim (Option-cases (token_index ts id)) [
  | inl e ↦ ground (arith, contains-ids ts id e)
  | inr (a, e) ↦ ground arith
]

contains-hashes :
    (ts : List RefreshToken) (hash : Text)
    → has_token_hash ts hash ≡ false
    → contains (map (λ t. t.hash) ts) hash ≡ false
unfolding has_token_hash
contains-hashes [] hash h = refl
contains-hashes (t ∷ ts) hash h = ground (arith, contains-hashes ts hash)

-- The family with the presented token marked keeps the views of its tokens.
marked-view {ℓ} :
    {B : Type ℓ} (view : RefreshToken → B) (f : RefreshTokenFamily) (id : Uuid) (i : ℕ)
    (t : RefreshToken) (now : Time)
    → Found f.tokens id i t
    → ((u : RefreshToken) → view (record u { reuse_detected_at = some now }) ≡ view u)
    → map view (marked f i t now).tokens ≡ map view f.tokens
marked-view view f id i t now found e =
    ap (map view) (found.written _)
    ∙ map-replace view found.front t _ found.back (e t)
    ∙ ap (map view) (sym found.split)

marked-changed :
    (f : RefreshTokenFamily) (i : ℕ) (t : RefreshToken) (now : Time)
    → family_changed_at f ≤ now
    → family_changed_at (marked f i t now) ≤ now
unfolding family_changed_at
marked-changed f i t now h = omega (arith, family-changed-reuse f now h)

reuse-WellFormed :
    (f : RefreshTokenFamily) (id : Uuid) (i : ℕ) (t : RefreshToken) (now : Time)
    → WellFormed f
    → Found f.tokens id i t
    → family_changed_at f ≤ now
    → WellFormed (revoked_family (marked f i t now) reuse_detected_revoke_reason now)
reuse-WellFormed f id i t now w found h =
    revoked_family-WellFormed (marked f i t now) reuse_detected_revoke_reason now
      (is_some f.revoked_at) w.dated (marked-changed f i t now h) (marked-ok f id i t now w h found)
      (rw (marked-view link f id i t now found (λ u. refl)) w.chain)
      (rw (marked-view (λ u. u.id) f id i t now found (λ u. refl)) w.ids)
      (rw (marked-view (λ u. u.hash) f id i t now found (λ u. refl)) w.hashes)

pub rotated-changed :
    (f : RefreshTokenFamily) (i : ℕ) (t token : RefreshToken) (now : Time)
    → family_changed_at f ≤ now
    → family_changed_at (rotated_family f i t token now) ≡ now
unfolding family_changed_at
rotated-changed f i t token now h = family-changed-rotated f now h

-- A view that rotation does not touch, over the tokens after a rotation.
rotated-view {ℓ} :
    {B : Type ℓ} (view : RefreshToken → B) (f : RefreshTokenFamily) (id : Uuid) (i : ℕ)
    (t token : RefreshToken) (now : Time)
    → Found f.tokens id i t
    → ((u : RefreshToken) → view (record u { rotated_at = some now }) ≡ view u)
    → map view (rotated_family f i t token now).tokens ≡ map view f.tokens ++ view token ∷ []
rotated-view view f id i t token now found e =
    map-append view _ (token ∷ [])
    ∙ ap (λ vs. vs ++ view token ∷ [])
        (ap (map view) (found.written _)
          ∙ map-replace view found.front t _ found.back (e t)
          ∙ ap (map view) (sym found.split))

-- The chain up to an unused token, which is its end.
unused-last :
    (f : RefreshTokenFamily) (id : Uuid) (i : ℕ) (t : RefreshToken)
    → IsChain none (map link f.tokens)
    → is_some t.rotated_at ≡ false
    → (found : Found f.tokens id i t) → IsChain none (map link (found.front ++ t ∷ []))
unused-last f id i t chain fresh found =
    let whole = rw found.split at chain in
    rw (IsChain-unused none found.front t found.back whole fresh) at whole

rotated-tokens :
    (f : RefreshTokenFamily) (id : Uuid) (i : ℕ) (t token : RefreshToken) (now : Time)
    → IsChain none (map link f.tokens)
    → is_some t.rotated_at ≡ false
    → (found : Found f.tokens id i t)
    → (rotated_family f i t token now).tokens
      ≡ found.front ++ record t { rotated_at = some now } ∷ token ∷ []
rotated-tokens f id i t token now chain fresh found =
    let last : found.back ≡ [] =
      IsChain-unused none found.front t found.back (rw found.split at chain) fresh in
    rw (found.written (record t { rotated_at = some now }), last, append_assoc)

pub rotated-WellFormed :
    (f : RefreshTokenFamily) (id : Uuid) (i : ℕ) (t token : RefreshToken) (next : NextToken)
    (now : Time)
    → WellFormed f
    → Found f.tokens id i t
    → family_changed_at f ≤ now
    → Rotatable t now
    → Issued f id next token now
    → WellFormed (rotated_family f i t token now)
rotated-WellFormed f id i t token next now w found h r k =
    let sound = rw found.split at (tokens-at f now w h) in
    let seen = All-split _ found.front t found.back sound in
    record {
      dated = w.dated;
      tokens_ok =
          rw (rotated-changed f i t token now h, found.written (record t { rotated_at = some now }))
            (All-append _ (found.front ++ record t { rotated_at = some now } ∷ found.back) _
              (All-replace _ found.front t _ found.back sound (record {
                timed = changed-rotated t now seen.timed;
                bounded = seen.bounded;
                revoked_together = seen.revoked_together;
              }))
              (
                record {
                  timed =
                      omega (arith, changed-fresh token k.unrotated k.unrevoked k.unused, k.issued);
                  bounded = k.bounded;
                  revoked_together = ground (arith, seen.revoked_together, r.live, k.unrevoked);
                },
                tt,
              ));
      chain = rw (rotated-tokens f id i t token now w.chain r.fresh found) (
          IsChain-extend none found.front t _ token (unused-last f id i t w.chain r.fresh found)
            refl refl refl (k.parent ∙ ap some (sym found.same_id)) (ap is_some k.unrotated));
      ids = rw (rotated-view (λ u. u.id) f id i t token now found (λ u. refl)) (
          Distinct-snoc _ token.id w.ids
            (rw k.same_id (contains-ids f.tokens next.token_id k.new_id)));
      hashes = rw (rotated-view (λ u. u.hash) f id i t token now found (λ u. refl)) (
          Distinct-snoc _ token.hash w.hashes
            (rw k.same_hash (contains-hashes f.tokens next.token_hash k.new_hash)));
      reuse_revokes = w.reuse_revokes;
    }

-- Whatever a call of `Rotate` answers, a well-formed family is left well formed.
pub rotate-WellFormed :
    (f : RefreshTokenFamily) (id : Uuid) (next : NextToken) (now : Time)
    → WellFormed f
    → WellFormed (rotate f id next now).0
rotate-WellFormed f id next now w =
    rotate-split (λ r. WellFormed r.0) f id next now w (λ e. w)
      (λ i t found h r. reuse-WellFormed f id i t now w found h)
      (λ i t token found h r k. rotated-WellFormed f id i t token next now w found h r k)

-- A call of `Rotate` on a well-formed family that answers with an error has changed nothing.
rotate_error_unchanged :
    (f : RefreshTokenFamily) (id : Uuid) (next : NextToken) (now : Time) {e : Error}
    → WellFormed f
    → (rotate f id next now).1 ≡ err e
    → (rotate f id next now).0 ≡ f
rotate_error_unchanged f id next now {e} w =
    rotate-split (λ r. r.1 ≡ err e → r.0 ≡ f) f id next now w (λ e' h. refl) (λ i t found h r p. cc)
      (λ i t token found h r k p. cc)
