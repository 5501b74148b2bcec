-- ===== src/Identity/Identities/Leading.antt =====
-- `SetPrimaryEmail` and `SetPrimaryPhone` of services/identity/internal/domain/identity/identity.go
-- on the list of contacts.
use careeria.Base.{
  ◌≤◌, ◌≡◌, refl, Bool, false, not, ◌||◌, none, List, [], ◌∷◌, All, arith, nat_comparable,
  list_comparable,
}
use careeria.Base.Guards.{branched, passed}
use careeria.Base.Finding.{often, Pairwise}
use careeria.Base.Others.{Takes}
use careeria.Domain.{Time, is_zero}
use careeria.Identity.Identities.Contacts.{
  Kind, Error, Contact, is_active, is_usable, is_primary_contact, ensure_change_allowed, demote,
}
use careeria.Identity.Identities.Renewing.{values, Late}
use careeria.Identity.Identities.{any_except}

-- What neither a promotion nor a demotion changes.
pub record Alike (now : Time) (c c' : Contact) : Type 0 where
  pub active : is_active c' ≡ is_active c
  pub value : c'.value ≡ c.value
  pub verified : c'.verified_at ≡ c.verified_at
  pub late : c'.updated_at ≤ now

pub demote-Takes :
    (kind : Kind) (now : Time)
    → is_zero now ≡ false
    → (c : Contact) → Late now c
    → Takes (Alike now) is_primary_contact c (demote kind c now)
unfolding demote
demote-Takes kind now set_time c late =
    let P = Takes {E = Error} (Alike now) is_primary_contact c in
    branched P (not (is_active c) || not c.is_primary) _ _
      (λ other. record {
        accepted = refl;
        related = record { active = refl; value = refl; verified = refl; late = late };
        off = ground arith;
      })
      (λ primary. passed P (ensure_change_allowed kind c now) _ _ (ground arith) (record {
        accepted = refl;
        related = record { active = refl; value = refl; verified = refl; late = omega arith };
        off = ground arith;
      }))

module _ (now : Time) where
  pub values-Pairwise :
      (cs cs' : List Contact) → Pairwise (Alike now) cs cs' → values cs' ≡ values cs
  values-Pairwise [] [] p = refl
  values-Pairwise [] (y ∷ ys) p = absurd p
  values-Pairwise (x ∷ xs) [] p = absurd p
  values-Pairwise (x ∷ xs) (y ∷ ys) p = rw (p.0.value, values-Pairwise xs ys p.1)

  pub Late-Pairwise : (cs cs' : List Contact) → Pairwise (Alike now) cs cs' → All (Late now) cs'
  Late-Pairwise [] [] p = tt
  Late-Pairwise [] (y ∷ ys) p = absurd p
  Late-Pairwise (x ∷ xs) [] p = tt
  Late-Pairwise (x ∷ xs) (y ∷ ys) p = (p.0.late, Late-Pairwise xs ys p.1)

  pub any-Pairwise :
      (test : Contact → Bool) (cs cs' : List Contact)
      → ((c c' : Contact) → Alike now c c' → test c' ≡ test c)
      → Pairwise (Alike now) cs cs'
      → (any_except test none cs' ≡ any_except test none cs) × (often test cs' ≡ often test cs)
  any-Pairwise test [] [] same p = (refl, refl)
  any-Pairwise test [] (y ∷ ys) same p = absurd p
  any-Pairwise test (x ∷ xs) [] same p = absurd p
  any-Pairwise test (x ∷ xs) (y ∷ ys) same p =
      let (a, b) = any-Pairwise test xs ys same p.1 in (rw (same x y p.0, a), rw (same x y p.0, b))

  pub usable-Alike : (c c' : Contact) → Alike now c c' → is_usable c' ≡ is_usable c
  usable-Alike c c' a = rw (a.active, a.verified)
