-- ===== src/Identity/Mfa/Finding.antt =====
-- The time of the last change of the factors in services/identity/internal/domain/mfa/mfa.go.
use careeria.Base.{◌≤◌, ◌≡◌, false, List, [], ◌∷◌, arith, All, Bool-cases, inl, inr}
use careeria.Domain.{Time, after, before}
use careeria.Identity.Mfa.{latest_updated}
use careeria.Identity.Mfa.Factors.{Factor}

latest_updated-le :
    (t : Time) (fs : List Factor) (now : Time)
    → latest_updated t fs ≤ now
    → (t ≤ now) × All (λ f. f.updated_at ≤ now) fs
unfolding latest_updated
latest_updated-le t [] now h = (h, tt)
latest_updated-le t (f ∷ fs) now h = elim (Bool-cases (after f.updated_at t)) [
  | inl new ↦
      let (a, b) = latest_updated-le f.updated_at fs now (ground arith) in (ground arith, (a, b))
  | inr old ↦ let (a, b) = latest_updated-le t fs now (ground arith) in (a, (ground arith, b))
]

-- A change at a time that is allowed comes after the last change of every factor.
pub All-changed :
    (fs : List Factor) (now : Time)
    → before now (latest_updated 0 fs) ≡ false
    → All (λ f. f.updated_at ≤ now) fs
All-changed fs now h = (latest_updated-le 0 fs now (ground arith)).1
