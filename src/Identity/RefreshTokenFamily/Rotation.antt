-- ===== src/Identity/RefreshTokenFamily/Rotation.antt =====
-- `Rotate` where it issues the next token, and all its outcomes on a well-formed family.
use careeria.Base.{
  ℕ, ◌≡◌, ◌⊎◌, not, ◌≤◌, refl, false, none, some, [], ◌∷◌, ◌++◌, arith, set, ok, err, Result, ◌==◌,
  nat_comparable, list_comparable, Bool-cases, Option-cases, inl, inr, ◌||◌, ◌||◌,
}
use careeria.Domain.{Time, Uuid, is_zero, is_valid_id, after, normalize_optional_text}
use careeria.Identity.RefreshTokenFamily.Errors.{
  Error, token_identifier_invalid, parent_identifier_invalid, token_expiration_invalid,
}
use careeria.Identity.RefreshTokenFamily.Token.{
  RefreshToken, new_refresh_token, validate_for_rotation, mark_rotated,
}
use careeria.Identity.RefreshTokenFamily.Listing.{Found, token_index-Found}
use careeria.Identity.RefreshTokenFamily.Revocation.{revoked_family}
use careeria.Identity.RefreshTokenFamily.Invariant.{WellFormed}
use careeria.Identity.RefreshTokenFamily.{
  RefreshTokenFamily, NextToken, RotationOutcome, rotated, reuse_detected, family_changed_at,
  issue_next, rotate, reuse_detected_revoke_reason, token_index, has_token_hash,
  ensure_rotation_allowed,
}
use careeria.Identity.RefreshTokenFamily.Presenting.{
  Rotatable, Reused, validate-split, marked, detect_reuse-eq,
}

-- What `issue_next` tested of the token that it issued.
pub record Issued (f : RefreshTokenFamily) (id : Uuid) (next : NextToken) (token : RefreshToken)
    (now : Time) : Type 0 where
  pub new_id : token_index f.tokens next.token_id ≡ none
  pub new_hash : has_token_hash f.tokens next.token_hash ≡ false
  pub same_id : token.id ≡ next.token_id
  pub same_hash : token.hash ≡ next.token_hash
  pub parent : token.parent_token_id ≡ some id
  pub bounded : token.expires_at ≤ f.absolute_expires_at
  pub issued : token.issued_at ≡ now
  pub unrotated : token.rotated_at ≡ none
  pub unrevoked : token.revoked_at ≡ none
  pub unused : token.reuse_detected_at ≡ none

-- The family with the presented token rotated and the issued one behind it.
abbrev pub rotated_family :
    RefreshTokenFamily → ℕ → RefreshToken → RefreshToken → Time → RefreshTokenFamily
rotated_family f i t token now = record f {
  tokens = set f.tokens i (record t { rotated_at = some now }) ++ token ∷ [];
  last_rotated_at = some now;
}

mark_rotated-eq :
    (t : RefreshToken) (now : Time)
    → validate_for_rotation t now ≡ none
    → mark_rotated t now ≡ (record t { rotated_at = some now }, none)
unfolding mark_rotated
mark_rotated-eq t now valid = rw (mark_rotated, valid)

-- The token that `newRefreshToken` builds for a rotation.
abbrev next_token : Uuid → NextToken → Time → RefreshToken
next_token id next now = record {
  id = next.token_id;
  parent_token_id = some id;
  hash = next.token_hash;
  created_from_ip = next.from_ip;
  created_user_agent = normalize_optional_text next.user_agent;
  issued_at = now;
  expires_at = next.token_expires_at;
  rotated_at = none;
  revoked_at = none;
  revoke_reason = none;
  reuse_detected_at = none;
}

new_refresh_token-cases :
    (f : RefreshTokenFamily) (id : Uuid) (next : NextToken) (now : Time)
    → token_index f.tokens next.token_id ≡ none
    → has_token_hash f.tokens next.token_hash ≡ false
    → after next.token_expires_at f.absolute_expires_at ≡ false
    → let issued =
        new_refresh_token next.token_id
          (some id)
          next.token_hash
          next.token_expires_at
          next.from_ip
          next.user_agent
          now in
      ((e : Error) × (issued ≡ err e))
      ⊎ ((token : RefreshToken) × (issued ≡ ok token) × Issued f id next token now)
unfolding new_refresh_token
new_refresh_token-cases f id next now new_id new_hash within =
    elim (Bool-cases (is_valid_id next.token_id)) [
      | inr bad ↦ inl (token_identifier_invalid, rw bad)
      | inl valid ↦ elim (Bool-cases (not (is_valid_id id) || id == next.token_id)) [
        | inl bad ↦ inl (parent_identifier_invalid, rw (valid, bad))
        | inr good ↦ elim (Bool-cases (is_zero now || not (after next.token_expires_at now))) [
          | inl bad ↦ inl (token_expiration_invalid, rw (valid, good, bad))
          | inr late ↦ inr (
            next_token id next now,
            rw (valid, good, late) refl,
            record {
              new_id = new_id;
              new_hash = new_hash;
              same_id = refl;
              same_hash = refl;
              parent = refl;
              bounded = ground arith;
              issued = refl;
              unrotated = refl;
              unrevoked = refl;
              unused = refl;
            },
          )
        ]
      ]
    ]

issue_next-split {ℓ} :
    (P : RefreshTokenFamily × Result Error RotationOutcome → Type ℓ) (f : RefreshTokenFamily)
    (id : Uuid) (i : ℕ) (t : RefreshToken) (next : NextToken) (now : Time)
    → validate_for_rotation t now ≡ none
    → ((e : Error) → P (f, err e))
    → ((token : RefreshToken)
        → Issued f id next token now
        → P (rotated_family f i t token now, ok rotated))
    → P (issue_next f id i t next now)
unfolding issue_next
issue_next-split P f id i t next now valid refused issue =
    elim (Option-cases (token_index f.tokens next.token_id)) [
      | inr (_, old) ↦ rw (issue_next, old) (refused _)
      | inl new_id ↦ elim (Bool-cases (has_token_hash f.tokens next.token_hash)) [
        | inl old ↦ rw (issue_next, new_id, old) (refused _)
        | inr new_hash ↦ elim (Bool-cases (after next.token_expires_at f.absolute_expires_at)) [
          | inl long ↦ rw (issue_next, new_id, new_hash, long) (refused _)
          | inr within ↦ elim (new_refresh_token-cases f id next now new_id new_hash within) [
            | inl (e, bad) ↦ rw (issue_next, new_id, new_hash, within, bad) (refused e)
            | inr (token, good, facts) ↦
                rw
                  (
                    issue_next,
                    new_id,
                    new_hash,
                    within,
                    good,
                    mark_rotated-eq t now valid,
                    mark_rotated-eq t now valid,
                  )
                  (issue token facts)
          ]
        ]
      ]
    ]

pub allowed_late :
    (f : RefreshTokenFamily) (now : Time)
    → ensure_rotation_allowed f now ≡ none
    → family_changed_at f ≤ now
unfolding ensure_rotation_allowed
allowed_late f now h = ground arith

-- The three ways in which `Rotate` ends on a well-formed family: it refuses and changes nothing, it
-- finds the presented token used and revokes the family, or it issues the next token.
pub rotate-split {ℓ} :
    (P : RefreshTokenFamily × Result Error RotationOutcome → Type ℓ) (f : RefreshTokenFamily)
    (id : Uuid) (next : NextToken) (now : Time)
    → WellFormed f
    → ((e : Error) → P (f, err e))
    → ((i : ℕ) (t : RefreshToken)
        → Found f.tokens id i t
        → family_changed_at f ≤ now
        → Reused t now
        → P (revoked_family (marked f i t now) reuse_detected_revoke_reason now, ok reuse_detected))
    → ((i : ℕ) (t token : RefreshToken)
        → Found f.tokens id i t
        → family_changed_at f ≤ now
        → Rotatable t now
        → Issued f id next token now
        → P (rotated_family f i t token now, ok rotated))
    → P (rotate f id next now)
unfolding rotate
rotate-split P f id next now w refused reuse issue =
    elim (Option-cases (ensure_rotation_allowed f now)) [
      | inr (e, stop) ↦ rw (rotate, stop) (refused e)
      | inl allowed ↦ elim (Option-cases (token_index f.tokens id)) [
        | inl missing ↦ rw (rotate, allowed, missing) (refused _)
        | inr ((i, t), at) ↦
            let found = token_index-Found f.tokens id i t at in
            let h = allowed_late f now allowed in
            rw (rotate, allowed, at)
              (validate-split P f id i t next now refused
                (λ r. rw (detect_reuse-eq f id i t now w h found r) (reuse i t found h r))
                (λ valid r.
                  issue_next-split P f id i t next now valid refused
                    (λ token facts. issue i t token found h r facts)))
      ]
    ]
