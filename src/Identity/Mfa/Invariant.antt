-- ===== src/Identity/Mfa/Invariant.antt =====
-- What every MFA configuration that the methods of
-- services/identity/internal/domain/mfa/mfa.go make is like.
use careeria.Base.{
  ℕ, ◌+◌, ◌≤◌, ◌≡◌, refl, Bool, true, false, not, ◌||◌, Option, none, some, List, [], ◌∷◌, ◌++◌,
  arith, is_some, set, All, All-append, Distinct, Distinct-snoc, contains, nat_comparable,
  list_comparable, ok, ◌∙◌, Bool-cases, inl, inr,
}
use mathlib.Core.List.{append-nil}
use careeria.Domain.{Time, Uuid}
use careeria.Identity.Mfa.Types.{Error, Bytes}
use careeria.Identity.Mfa.Factors.{Factor, has_id}
use careeria.Identity.Mfa.Keeping.{Persists, Persists-refl, Sound, Advances, credential_key}
use careeria.Base.Finding.{
  index_where, unit_of, often, often-append, often-set, often-zero, Found, All-set, All-found,
  Pairwise, Pairwise-set,
}
use careeria.Identity.Mfa.Promoting.{is_primary, Promotes}
use careeria.Identity.Mfa.Outcomes.{
  Outcome, refuses, keeps, changes, promotes, enrols, Fresh, Promoted,
}
use careeria.Identity.Mfa.Calls.{Call, perform, perform-Outcome, run}
use careeria.Identity.Mfa.{Mfa, new, enabled_totp, has_primary, has_enabled_totp, has_credential}

abbrev pub ids : List Factor → List Uuid
ids [] = []
ids (f ∷ fs) = f.id ∷ ids fs

abbrev onto : Option Bytes → List Bytes → List Bytes
onto none keys = keys
onto (some key) keys = key ∷ keys

-- The identifiers of the WebAuthn credentials.
abbrev pub keys : List Factor → List Bytes
keys [] = []
keys (f ∷ fs) = onto (credential_key f) (keys fs)

pub record WellFormed (m : Mfa) : Type 0 where
  pub distinct : Distinct (ids m.factors)
  pub distinct_keys : Distinct (keys m.factors)
  pub one_primary : often is_primary m.factors ≤ 1
  pub usable : All Sound m.factors
  pub one_totp : often enabled_totp m.factors ≤ 1

ids-Pairwise : (fs fs' : List Factor) → Pairwise Persists fs fs' → ids fs' ≡ ids fs
ids-Pairwise [] [] p = refl
ids-Pairwise [] (y ∷ ys) p = absurd p
ids-Pairwise (x ∷ xs) [] p = absurd p
ids-Pairwise (x ∷ xs) (y ∷ ys) p = rw (p.0.same_id, ids-Pairwise xs ys p.1)

keys-Pairwise : (fs fs' : List Factor) → Pairwise Persists fs fs' → keys fs' ≡ keys fs
keys-Pairwise [] [] p = refl
keys-Pairwise [] (y ∷ ys) p = absurd p
keys-Pairwise (x ∷ xs) [] p = absurd p
keys-Pairwise (x ∷ xs) (y ∷ ys) p = rw (p.0.same_key, keys-Pairwise xs ys p.1)

pub Persists-Pairwise : (fs fs' : List Factor) → Pairwise Promotes fs fs' → Pairwise Persists fs fs'
Persists-Pairwise [] [] p = tt
Persists-Pairwise [] (y ∷ ys) p = p
Persists-Pairwise (x ∷ xs) [] p = p
Persists-Pairwise (x ∷ xs) (y ∷ ys) p = (p.0.persists, Persists-Pairwise xs ys p.1)

Sound-Pairwise : (fs fs' : List Factor) → Pairwise Promotes fs fs' → All Sound fs → All Sound fs'
Sound-Pairwise [] [] p s = tt
Sound-Pairwise [] (y ∷ ys) p s = absurd p
Sound-Pairwise (x ∷ xs) [] p s = tt
Sound-Pairwise (x ∷ xs) (y ∷ ys) p s = (p.0.sound s.0, Sound-Pairwise xs ys p.1 s.1)

unit_of-le : (a b : Bool) → (a ≡ true → b ≡ true) → unit_of a ≤ unit_of b
unit_of-le true b h = rw (h refl) (omega arith)
unit_of-le false b h = omega arith

totp-Pairwise :
    (fs fs' : List Factor)
    → Pairwise Promotes fs fs'
    → often enabled_totp fs' ≤ often enabled_totp fs
totp-Pairwise [] [] p = omega arith
totp-Pairwise [] (y ∷ ys) p = absurd p
totp-Pairwise (x ∷ xs) [] p = omega arith
totp-Pairwise (x ∷ xs) (y ∷ ys) p =
    let head : unit_of (enabled_totp y) ≤ unit_of (enabled_totp x) =
      unit_of-le (enabled_totp y) (enabled_totp x) (λ h. ground (arith, p.0.enabled_totp h)) in
    omega (arith, totp-Pairwise xs ys p.1)

contains-ids :
    (fs : List Factor) (id : Uuid) → contains (ids fs) id ≡ is_some (index_where (has_id id) fs)
unfolding index_where
contains-ids [] id = refl
contains-ids (f ∷ fs) id = ground (arith, contains-ids fs id)

ids-append : (fs : List Factor) (f : Factor) → ids (fs ++ f ∷ []) ≡ ids fs ++ f.id ∷ []
ids-append [] f = refl
ids-append (x ∷ fs) f = rw (ids-append fs f)

onto-append : (key : Option Bytes) (xs ys : List Bytes) → onto key (xs ++ ys) ≡ onto key xs ++ ys
onto-append none xs ys = refl
onto-append (some key) xs ys = refl

keys-append :
    (fs : List Factor) (f : Factor) → keys (fs ++ f ∷ []) ≡ keys fs ++ onto (credential_key f) []
keys-append [] f = refl
keys-append (x ∷ fs) f =
    rw (keys-append fs f) (onto-append (credential_key x) (keys fs) (onto (credential_key f) []))

contains-keys : (fs : List Factor) (key : Bytes) → contains (keys fs) key ≡ has_credential key fs
contains-keys [] key = refl
contains-keys (f ∷ fs) key = ground (arith, contains-keys fs key)

Distinct-onto :
    (key : Option Bytes) (xs : List Bytes)
    → Distinct xs
    → ((k : Bytes) → key ≡ some k → contains xs k ≡ false)
    → Distinct (xs ++ onto key [])
Distinct-onto none xs d h = rw append-nil d
Distinct-onto (some key) xs d h = Distinct-snoc xs key d (h key refl)

-- Changing one factor keeps a test that at most one passes.
often-set-le :
    (test count : Factor → Bool) (fs : List Factor) (i : ℕ) (f f' : Factor)
    → Found test fs i f
    → (count f' ≡ true → (count f || not (is_some (index_where count fs))) ≡ true)
    → often count fs ≤ 1
    → often count (set fs i f') ≤ 1
often-set-le test count fs i f f' found allowed h =
    let e = often-set test count f' found in
    elim (Bool-cases (count f')) [
      | inl new ↦ ground (arith, e, often-zero count fs, allowed new, h)
      | inr other ↦ ground (arith, e)
    ]

set-WellFormed :
    (m : Mfa) (id : Uuid) (i : ℕ) (f f' : Factor)
    → Found (has_id id) m.factors i f
    → Advances f f' (not (has_primary m)) (not (has_enabled_totp m))
    → WellFormed m
    → WellFormed (record m { factors = set m.factors i f' })
set-WellFormed m id i f f' found a w =
    let p = Pairwise-set Persists Persists-refl f' found a.persists in
    record {
      distinct = rw (ids-Pairwise m.factors (set m.factors i f') p) w.distinct;
      distinct_keys = rw (keys-Pairwise m.factors (set m.factors i f') p) w.distinct_keys;
      one_primary =
          often-set-le (has_id id) is_primary m.factors i f f' found a.primary w.one_primary;
      usable =
          All-set (has_id id) Sound f' found w.usable
            (a.sound (All-found (has_id id) Sound found w.usable));
      one_totp =
          often-set-le (has_id id) enabled_totp m.factors i f f' found a.enabled_totp w.one_totp;
    }

promotes-WellFormed :
    (m : Mfa) (fs : List Factor)
    → Promoted m.factors fs
    → WellFormed m
    → WellFormed (record m { factors = fs })
promotes-WellFormed m fs p w =
    let kept = Persists-Pairwise m.factors fs p.pairwise in
    record {
      distinct = rw (ids-Pairwise m.factors fs kept) w.distinct;
      distinct_keys = rw (keys-Pairwise m.factors fs kept) w.distinct_keys;
      one_primary = omega (arith, p.single);
      usable = Sound-Pairwise m.factors fs p.pairwise w.usable;
      one_totp = omega (arith, totp-Pairwise m.factors fs p.pairwise, w.one_totp);
    }

enrols-WellFormed :
    (m : Mfa) (f : Factor)
    → Fresh m f
    → WellFormed m
    → WellFormed (record m { factors = m.factors ++ f ∷ [] })
enrols-WellFormed m f n w = record {
  distinct =
      rw (ids-append m.factors f)
        (Distinct-snoc (ids m.factors) f.id w.distinct (contains-ids m.factors f.id ∙ n.absent));
  distinct_keys = rw (keys-append m.factors f) (
      Distinct-onto (credential_key f) (keys m.factors) w.distinct_keys
        (λ k h. contains-keys m.factors k ∙ n.new_key k h));
  one_primary =
      rw (often-append is_primary m.factors f, n.secondary) (omega (arith, w.one_primary));
  usable =
      All-append Sound m.factors (f ∷ []) w.usable
        ((λ h. absurd (ground (arith, n.secondary))), tt);
  one_totp = rw (often-append enabled_totp m.factors f) (fresh_totp (enabled_totp f) n.only_totp);
}
  where
    fresh_totp :
        (b : Bool)
        → (b ≡ true → has_enabled_totp m ≡ false)
        → often enabled_totp m.factors + unit_of b ≤ 1
    fresh_totp true h = omega (arith, often-zero enabled_totp m.factors (h refl))
    fresh_totp false h = omega (arith, w.one_totp)

Outcome-WellFormed :
    (m : Mfa) (r : Mfa × Option Error) → Outcome m r → WellFormed m → WellFormed r.0
Outcome-WellFormed m _ refuses w = w
Outcome-WellFormed m _ keeps w = w
Outcome-WellFormed m _ (changes id {i} {f} {f'} found a) w = set-WellFormed m id i f f' found a w
Outcome-WellFormed m _ (promotes {fs} p) w = promotes-WellFormed m fs p w
Outcome-WellFormed m _ (enrols {f} n) w = enrols-WellFormed m f n w

pub run-WellFormed : (m : Mfa) (cs : List (Call × Time)) → WellFormed m → WellFormed (run m cs)
unfolding run
run-WellFormed m [] w = w
run-WellFormed m ((c, now) ∷ cs) w =
    run-WellFormed (perform m c now).0 cs
      (Outcome-WellFormed m (perform m c now) (perform-Outcome m c now) w)

pub new-WellFormed : (identity_id : Uuid) (m : Mfa) → new identity_id ≡ ok m → WellFormed m
unfolding new
new-WellFormed identity_id m h =
    let e : m.factors ≡ [] = ground arith in
    record {
      distinct = rw e tt;
      distinct_keys = rw e tt;
      one_primary = rw e (omega arith);
      usable = rw e tt;
      one_totp = rw e (omega arith);
    }

-- Through all calls on a new MFA configuration: no two factors have one identifier, no two factors
-- have one WebAuthn credential, at most one factor is primary, a primary factor is enabled and
-- confirmed, and at most one TOTP factor is enabled.
pub new-run_mfa-WellFormed :
    (identity_id : Uuid) (m : Mfa) (cs : List (Call × Time))
    → new identity_id ≡ ok m
    → WellFormed (run m cs)
new-run_mfa-WellFormed identity_id m cs h = run-WellFormed m cs (new-WellFormed identity_id m h)
