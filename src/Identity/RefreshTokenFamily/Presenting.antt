-- ===== src/Identity/RefreshTokenFamily/Presenting.antt =====
-- `Rotate` up to the check of the presented token, and the answer to one that was rotated before.
use careeria.Base.{
  ℕ, ◌≡◌, ◌≤◌, ◌<◌, refl, true, false, none, some, arith, is_some, set, All, ok, err, Result,
  nat_comparable, list_comparable, Bool-cases, inl, inr, ◌||◌, ◌||◌,
}
use careeria.Base.Text.{trim_space}
use careeria.Domain.{Time, Uuid, is_zero, before}
use careeria.Identity.RefreshTokenFamily.Errors.{Error}
use careeria.Identity.RefreshTokenFamily.Token.{
  RefreshToken, token_changed_at, validate_for_rotation, record_reuse_detected,
}
use careeria.Identity.RefreshTokenFamily.Times.{changed-reuse}
use careeria.Identity.RefreshTokenFamily.Listing.{Found, All-split, All-replace}
use careeria.Identity.RefreshTokenFamily.Revocation.{
  revoked_family, revoke_all-eq, tokens-at, timed-at,
}
use careeria.Identity.RefreshTokenFamily.Invariant.{TokenOk, WellFormed}
use careeria.Identity.RefreshTokenFamily.{
  RefreshTokenFamily, NextToken, RotationOutcome, reuse_detected, family_changed_at, detect_reuse,
  issue_next, rotate_presented, reuse_detected_revoke_reason,
}

-- What `ValidateForRotation` answers, with what it tested.
pub record Rotatable (t : RefreshToken) (now : Time) : Type 0 where
  pub fresh : is_some t.rotated_at ≡ false
  pub live : is_some t.revoked_at ≡ false
  pub late : token_changed_at t ≤ now
  pub positive : 0 < now
  pub unexpired : now < t.expires_at

pub record Reused (t : RefreshToken) (now : Time) : Type 0 where
  pub used : is_some t.rotated_at ≡ true
  pub late : token_changed_at t ≤ now
  pub positive : 0 < now

-- How the body of `Rotate` goes on after the presented token was checked.
pub validate-split {ℓ} :
    (P : RefreshTokenFamily × Result Error RotationOutcome → Type ℓ) (f : RefreshTokenFamily)
    (id : Uuid) (i : ℕ) (t : RefreshToken) (next : NextToken) (now : Time)
    → ((e : Error) → P (f, err e))
    → (Reused t now → P (detect_reuse f i t now))
    → (validate_for_rotation t now ≡ none → Rotatable t now → P (issue_next f id i t next now))
    → P (rotate_presented f id i t next now (validate_for_rotation t now))
unfolding rotate_presented validate_for_rotation
validate-split P f id i t next now refused reuse issue =
    elim (Bool-cases (is_zero now || before now (token_changed_at t))) [
      | inl early ↦ rw (early) (refused _)
      | inr late ↦ elim (Bool-cases (is_some t.rotated_at)) [
        | inl used ↦
            rw (late, used)
              (reuse (record { used = used; late = ground arith; positive = ground arith }))
        | inr fresh ↦ elim (Bool-cases (is_some t.revoked_at)) [
          | inl revoked ↦ rw (late, fresh, revoked) (refused _)
          | inr live ↦ elim (Bool-cases (before now t.expires_at)) [
            | inl unexpired ↦
                rw (late, fresh, live, unexpired)
                  (issue (rw (late, fresh, live, unexpired)) (record {
                    fresh = fresh;
                    live = live;
                    late = ground arith;
                    positive = ground arith;
                    unexpired = ground arith;
                  }))
            | inr expired ↦ rw (late, fresh, live, expired) (refused _)
          ]
        ]
      ]
    ]

-- The family in which the presented token is marked as reused.
abbrev pub marked : RefreshTokenFamily → ℕ → RefreshToken → Time → RefreshTokenFamily
marked f i t now = record f {
  tokens = set f.tokens i (record t { reuse_detected_at = some now });
  reuse_detected_at = some now;
}

pub marked-ok :
    (f : RefreshTokenFamily) (id : Uuid) (i : ℕ) (t : RefreshToken) (now : Time)
    → WellFormed f
    → family_changed_at f ≤ now
    → Found f.tokens id i t
    → All (TokenOk now f.absolute_expires_at (is_some f.revoked_at)) (marked f i t now).tokens
marked-ok f id i t now w h found =
    let sound = rw found.split at (tokens-at f now w h) in
    let k = All-split _ found.front t found.back sound in
    rw (found.written (record t { reuse_detected_at = some now })) (
      All-replace _ found.front t _ found.back sound (record {
        timed = changed-reuse t now k.timed;
        bounded = k.bounded;
        revoked_together = k.revoked_together;
      }))

pub detect_reuse-eq :
    (f : RefreshTokenFamily) (id : Uuid) (i : ℕ) (t : RefreshToken) (now : Time)
    → WellFormed f
    → family_changed_at f ≤ now
    → Found f.tokens id i t
    → Reused t now
    → detect_reuse f i t now
      ≡ (revoked_family (marked f i t now) reuse_detected_revoke_reason now, ok reuse_detected)
unfolding detect_reuse record_reuse_detected
detect_reuse-eq f id i t now w h found r =
    let e =
      revoke_all-eq (marked f i t now) reuse_detected_revoke_reason now (unfold trim_space in refl)
        refl
        (record {
          positive = r.positive;
          timed = timed-at _ _ now _ (marked-ok f id i t now w h found);
        }) in
    ground (arith, e, r.used, r.late, r.positive)
