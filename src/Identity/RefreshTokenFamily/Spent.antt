-- ===== src/Identity/RefreshTokenFamily/Spent.antt =====
-- The tokens that were rotated, under later calls of `Rotate` and `Revoke`.
use careeria.Base.{
  ℕ, ◌+◌, ◌≡◌, refl, ◌∙◌, true, false, some, List, [], ◌∷◌, ◌++◌, map, arith, is_some,
  if◌then◌else◌, ◌==◌, Bool, Bool-cases, Option-cases, inl, inr,
}
use careeria.Base.Text.{Text, trim_space}
use careeria.Domain.{Time, Uuid}
use careeria.Identity.RefreshTokenFamily.Token.{RefreshToken}
use careeria.Identity.RefreshTokenFamily.Listing.{revoked_as, Found}
use careeria.Identity.RefreshTokenFamily.Revocation.{revoke-split}
use careeria.Identity.RefreshTokenFamily.Invariant.{WellFormed}
use careeria.Identity.RefreshTokenFamily.Rotation.{rotate-split}
use careeria.Identity.RefreshTokenFamily.{
  RefreshTokenFamily, NextToken, revoke, rotate, reuse_detected_revoke_reason, token_index,
}

-- Whether the token of this identifier was rotated.
abbrev pub spent : List RefreshToken → Uuid → Bool
spent [] id = false
spent (t ∷ ts) id = if t.id == id then is_some t.rotated_at else spent ts id

spent-append :
    (ts us : List RefreshToken) (id : Uuid) → spent ts id ≡ true → spent (ts ++ us) id ≡ true
spent-append [] us id h = absurd (cc h)
spent-append (t ∷ ts) us id h = ground (arith, spent-append ts us id)

pub spent-replace :
    (front : List RefreshToken) (t u : RefreshToken) (back : List RefreshToken) (id : Uuid)
    → u.id ≡ t.id
    → (is_some t.rotated_at ≡ true → is_some u.rotated_at ≡ true)
    → spent (front ++ t ∷ back) id ≡ true
    → spent (front ++ u ∷ back) id ≡ true
spent-replace [] t u back id e k h = ground (arith, e, k, h)
spent-replace (x ∷ front) t u back id e k h = ground (arith, spent-replace front t u back id e k)

pub spent-revoked :
    (reason : Text) (now : Time) (ts : List RefreshToken) (id : Uuid)
    → spent (map (revoked_as reason now) ts) id ≡ spent ts id
spent-revoked reason now [] id = refl
spent-revoked reason now (t ∷ ts) id = ground (arith, spent-revoked reason now ts id)

pub spent-found :
    (ts : List RefreshToken) (id : Uuid)
    → spent ts id ≡ true
    → (i : ℕ) × (t : RefreshToken) × (token_index ts id ≡ some (i, t))
      × (is_some t.rotated_at ≡ true)
unfolding token_index
spent-found [] id h = absurd (cc h)
spent-found (x ∷ ts) id h = elim (Bool-cases (x.id == id)) [
  | inl hit ↦ (0, x, ground arith, ground arith)
  | inr miss ↦
      let (i, t, at, used) = spent-found ts id (ground arith) in
      (i + 1, t, ground (arith, at), used)
]

pub spent-at :
    (ts : List RefreshToken) (id : Uuid) (i : ℕ) (t : RefreshToken)
    → token_index ts id ≡ some (i, t)
    → is_some t.rotated_at ≡ true
    → spent ts id ≡ true
unfolding token_index
spent-at [] id i t h used = absurd (cc h)
spent-at (x ∷ ts) id i t h used = elim (Bool-cases (x.id == id)) [
  | inl hit ↦ ground arith
  | inr miss ↦ elim (Option-cases (token_index ts id)) [
    | inl e ↦ absurd (ground arith)
    | inr ((j, y), e) ↦ ground (arith, spent-at ts id j y e)
  ]
]

-- The token stays rotated and the family's expiry is the same.
pub record Keeps (id : Uuid) (f g : RefreshTokenFamily) : Type 0 where
  pub spent_still : spent f.tokens id ≡ true → spent g.tokens id ≡ true
  pub expiry : g.absolute_expires_at ≡ f.absolute_expires_at

written-spent :
    (ts us : List RefreshToken) (presented id : Uuid) (i : ℕ) (t u : RefreshToken)
    → (found : Found ts presented i t) → us ≡ found.front ++ u ∷ found.back
    → u.id ≡ t.id
    → (is_some t.rotated_at ≡ true → is_some u.rotated_at ≡ true)
    → spent ts id ≡ true
    → spent us id ≡ true
written-spent ts us presented id i t u found e same k h =
    rw e (spent-replace found.front t u found.back id same k (rw found.split at h))

pub rotate-Keeps :
    (id : Uuid) (f : RefreshTokenFamily) (presented : Uuid) (next : NextToken) (now : Time)
    → WellFormed f
    → Keeps id f (rotate f presented next now).0
rotate-Keeps id f presented next now w =
    rotate-split (λ r. Keeps id f r.0) f presented next now w
      (λ e. record { spent_still = λ h. h; expiry = refl })
      (λ i t found h r. record {
        spent_still = λ before.
            spent-revoked reuse_detected_revoke_reason now _ id
            ∙ written-spent f.tokens _ presented id i t _ found (found.written _) refl (λ k. k)
                before;
        expiry = refl;
      })
      (λ i t token found h r k. record {
        spent_still = λ before. spent-append _ (token ∷ []) id (
            written-spent f.tokens _ presented id i t _ found (found.written _) refl (λ k. refl)
              before);
        expiry = refl;
      })

pub revoke-Keeps :
    (id : Uuid) (f : RefreshTokenFamily) (reason : Text) (now : Time)
    → WellFormed f
    → Keeps id f (revoke f reason now).0
revoke-Keeps id f reason now w =
    revoke-split (λ r. Keeps id f r.0) f reason now w
      (λ e. record { spent_still = λ h. h; expiry = refl })
      (λ h. record {
        spent_still = λ before. spent-revoked (trim_space reason) now f.tokens id ∙ before;
        expiry = refl;
      })
