-- ===== src/Identity/Mfa/Single.antt =====
-- The primary factor after `SetPrimaryFactor` of services/identity/internal/domain/mfa/mfa.go.
use careeria.Base.{ℕ, ◌≤◌, ◌≡◌, refl, Bool, true, Option, none, List, arith}
use careeria.Domain.{Time, Uuid}
use careeria.Identity.Mfa.Types.{Error}
use careeria.Identity.Mfa.Factors.{Factor, has_id}
use careeria.Base.Finding.{often, Found, here, there}
use careeria.Identity.Mfa.Promoting.{is_primary}
use careeria.Identity.Mfa.SettingPrimary.{
  PrimarySet, refused, was_primary, is_promoted, set_primary_factor-PrimarySet,
}
use careeria.Identity.Mfa.Invariant.{WellFormed}
use careeria.Identity.Mfa.{Mfa, set_primary_factor}

-- The factor is the only primary one.
pub record OnlyPrimary (m : Mfa) (id : Uuid) : Type 0 where
  pub single : often is_primary m.factors ≡ 1
  pub index : ℕ
  pub factor : Factor
  pub found : Found (has_id id) m.factors index factor
  pub primary : factor.is_primary ≡ true

one_of :
    (test : Factor → Bool) (fs : List Factor) (i : ℕ) (f : Factor)
    → Found test fs i f
    → f.is_primary ≡ true
    → 1 ≤ often is_primary fs
one_of test _ _ _ (here h) primary = ground arith
one_of test _ _ _ (there {x} {f} {fs} {i} miss r) primary =
    omega (arith, one_of test fs i f r primary)

PrimarySet-OnlyPrimary :
    (m : Mfa) (id : Uuid) (now : Time) (r : Mfa × Option Error)
    → WellFormed m
    → PrimarySet m id now r
    → r.1 ≡ none
    → OnlyPrimary r.0 id
PrimarySet-OnlyPrimary m id now _ w refused h = cc
PrimarySet-OnlyPrimary m id now _ w (was_primary {i} {f} found primary) h = record {
  single = omega (arith, one_of (has_id id) m.factors i f found primary, w.one_primary);
  index = i;
  factor = f;
  found = found;
  primary = primary;
}
PrimarySet-OnlyPrimary m id now _ w (is_promoted {i} {f} found p there_now) h = record {
  single = p.single;
  index = i;
  factor = record f { is_primary = true; updated_at = now };
  found = there_now;
  primary = refl;
}

-- Where setting the primary factor of a well-formed configuration reports no error, the factor with
-- the identifier given is primary, and it is the only one.
pub set_primary_factor-OnlyPrimary :
    (m : Mfa) (id : Uuid) (now : Time)
    → WellFormed m
    → (set_primary_factor m id now).1 ≡ none
    → OnlyPrimary (set_primary_factor m id now).0 id
set_primary_factor-OnlyPrimary m id now w accepted =
    PrimarySet-OnlyPrimary m id now (set_primary_factor m id now) w
      (set_primary_factor-PrimarySet m id now) accepted
