-- ===== src/Identity/Mfa/Promoting.antt =====
-- `SetPrimaryFactor` of services/identity/internal/domain/mfa/mfa.go: the promotion of one factor
-- and the loop that demotes the others.
use careeria.Base.{◌≤◌, ◌≡◌, refl, Bool, true, false, not, arith}
use careeria.Base.Guards.{branched, passed}
use careeria.Base.Others.{Takes}
use careeria.Domain.{Time, is_zero}
use careeria.Identity.Mfa.Types.{Error}
use careeria.Identity.Mfa.Factors.{Factor, ensure_change_allowed, demote}
use careeria.Identity.Mfa.Keeping.{Persists-plain, Advances, Advances-refl}

abbrev pub is_primary : Factor → Bool
is_primary f = f.is_primary

abbrev pub Promotes : Factor → Factor → Type 0
Promotes f f' = Advances f f' true false

-- `Demote` of a factor that was not changed later.
pub demote-Takes :
    (now : Time)
    → is_zero now ≡ false
    → (f : Factor) → f.updated_at ≤ now
    → Takes Promotes is_primary f (demote f now)
unfolding demote
demote-Takes now set_time f late =
    let P = Takes {E = Error} Promotes is_primary f in
    branched P (not f.is_primary) _ _
      (λ other. record {
        accepted = refl;
        related = Advances-refl f true false now;
        off = ground arith;
      })
      (λ primary. passed P (ensure_change_allowed f now) _ _ (ground arith) (record {
        accepted = refl;
        related = record {
          persists = Persists-plain f _ refl refl refl refl (λ h. h);
          sound = λ h k. ground arith;
          primary = λ h. ground arith;
          enabled_totp = λ h. ground arith;
        };
        off = refl;
      }))
