-- ===== src/Identity/Mfa/SettingPrimary.antt =====
-- `SetPrimaryFactor` of services/identity/internal/domain/mfa/mfa.go as a whole.
use careeria.Base.{
  ℕ, ◌≤◌, ◌+◌, ◌≡◌, refl, Bool, true, false, not, Option, none, some, List, arith, set, All, Result,
  ok, err,
}
use careeria.Base.Others.{Spread, each_other-Spread, each_other-Found}
use careeria.Base.Guards.{guarded, branched, checked}
use careeria.Domain.{Time, Uuid, is_zero}
use careeria.Identity.Mfa.Types.{Error}
use careeria.Identity.Mfa.Factors.{
  Factor, ensure_change_allowed, is_enabled, is_confirmed, has_id, promote, demote,
}
use careeria.Identity.Mfa.Keeping.{Persists-plain}
use careeria.Base.Finding.{Found, Found-test, set_self}
use careeria.Identity.Mfa.Promoting.{is_primary, Promotes, demote-Takes}
use careeria.Identity.Mfa.Outcomes.{Outcome, refuses, keeps, promotes, Promoted, on_factor-rule}
use careeria.Identity.Mfa.{Mfa, demote_others, promoted_at, set_primary_factor}

abbrev primary_at : Factor → Time → Factor
primary_at f now = record f { is_primary = true; updated_at = now }

-- What `Promote` does: it refuses, or the factor was primary, or it becomes primary.
abbrev Raised : Factor → Time → Factor × Result Error Bool → Type 0
Raised f now (f', err e) = f' ≡ f
Raised f now (f', ok false) = (f' ≡ f) × (f.is_primary ≡ true)
Raised f now (f', ok true) = (f' ≡ primary_at f now) × Promotes f (primary_at f now)

promote-Raised : (f : Factor) (now : Time) → Raised f now (promote f now)
unfolding promote
promote-Raised f now =
    let P = Raised f now in
    checked P (ensure_change_allowed f now) _ _ (λ e. refl)
      (λ timely. guarded P (not (is_enabled f)) _ _ refl (λ on.
        guarded P (not (is_confirmed f)) _ _ refl (λ confirmed.
          branched P f.is_primary _ _ (λ primary. (refl, primary))
            (λ other. (
              refl,
              record {
                persists = Persists-plain f _ refl refl refl refl (λ h. h);
                sound = λ h k. (ground arith, ground arith);
                primary = λ h. ground arith;
                enabled_totp = λ h. ground arith;
              },
            )))))

module _ (m : Mfa) (id : Uuid) (now : Time) where
  -- What `SetPrimaryFactor` leaves, where it reports no error: the factor found was primary, or it
  -- is promoted.
  pub data PrimarySet : Mfa × Option Error → Type 0 where
    refused : {e : Error} → PrimarySet (m, some e)
    was_primary :
        {i : ℕ} {f : Factor}
        → Found (has_id id) m.factors i f
        → f.is_primary ≡ true
        → PrimarySet (m, none)
    is_promoted :
        {i : ℕ} {f : Factor} {fs : List Factor}
        → Found (has_id id) m.factors i f
        → Promoted m.factors fs
        → Found (has_id id) fs i (primary_at f now)
        → PrimarySet (record m { factors = fs }, none)

  promoted_at-PrimarySet :
      (i : ℕ) (f : Factor) (r : Factor × Result Error Bool)
      → Found (has_id id) m.factors i f
      → is_zero now ≡ false
      → All (λ x. x.updated_at ≤ now) m.factors
      → Raised f now r
      → PrimarySet (promoted_at m i now r)
  promoted_at-PrimarySet i f (f', err e) found set_time late h =
      rw (h, set_self (has_id id) found) refused
  promoted_at-PrimarySet i f (f', ok false) found set_time late h =
      rw (h.0, set_self (has_id id) found) (was_primary found h.1)
  promoted_at-PrimarySet i f (f', ok true) found set_time late h =
      let index : i + 0 ≡ i = omega arith in
      let method = λ (x : Factor). demote x now in
      let Early = λ (x : Factor). x.updated_at ≤ now in
      let takes = demote-Takes now set_time in
      let hit = Found-test (has_id id) found in
      let others = demote_others (set m.factors i (primary_at f now)) 0 i now in
      let spread : Spread Promotes is_primary m.factors 1 others = rw index at (
        each_other-Spread method Promotes is_primary Early takes (primary_at f now) 0 found late h.1
          refl) in
      let there_now : Found (has_id id) others.0 i (primary_at f now) = rw index at (
        each_other-Found method Promotes is_primary Early takes (has_id id)
          (λ x y p miss. ground (arith, p.persists.same_id)) (primary_at f now) 0 found late hit) in
      rw (h.0, spread.accepted)
        (is_promoted found (record { pairwise = spread.pairwise; single = spread.counted })
          there_now)

  pub set_primary_factor-PrimarySet : PrimarySet (set_primary_factor m id now)
  unfolding set_primary_factor
  set_primary_factor-PrimarySet =
      on_factor-rule PrimarySet m id now _ (λ e. refused)
        (λ i f found set_time late.
          promoted_at-PrimarySet i f (promote f now) found set_time late (promote-Raised f now))

  PrimarySet-Outcome : (r : Mfa × Option Error) → PrimarySet r → Outcome m r
  PrimarySet-Outcome _ refused = refuses
  PrimarySet-Outcome _ (was_primary found h) = keeps
  PrimarySet-Outcome _ (is_promoted found p e) = promotes p

  pub set_primary_factor-Outcome : Outcome m (set_primary_factor m id now)
  set_primary_factor-Outcome =
      PrimarySet-Outcome (set_primary_factor m id now) set_primary_factor-PrimarySet
