-- ===== src/Identity/RefreshTokenFamily/Token.antt =====
-- services/identity/internal/domain/refreshtokenfamily/token.go and types.go. A method returns the
-- token that it leaves and Go's `error`.
use careeria.Base.{
  Bool, false, not, ◌||◌, Option, none, some, [], ◌∷◌, ◌==◌, if◌then◌else◌, is_some, Result, ok,
  err,
}
use careeria.Base.Text.{Text}
use careeria.Domain.{
  Time, Uuid, before, after, is_zero, is_valid_id, latest_of, normalize_optional_text,
  normalize_required_text,
}
use careeria.Identity.RefreshTokenFamily.Errors.{
  Error, token_identifier_invalid, parent_identifier_invalid, token_expiration_invalid,
  token_use_time_invalid, token_already_rotated, token_revoked, token_expired, token_not_rotated,
  token_reuse_time_invalid, token_revocation_time_invalid, token_reason_required,
}

pub record RefreshToken : Type 0 where
  pub id : Uuid
  pub parent_token_id : Option Uuid
  pub hash : Text
  pub created_from_ip : Option Text
  pub created_user_agent : Option Text
  pub issued_at : Time
  pub expires_at : Time
  pub rotated_at : Option Time
  pub revoked_at : Option Time
  pub revoke_reason : Option Text
  pub reuse_detected_at : Option Time

-- `parentTokenID != nil && (!parentTokenID.IsValid() || *parentTokenID == id)`
abbrev pub is_bad_parent : Option Uuid → Uuid → Bool
is_bad_parent none id = false
is_bad_parent (some parent) id = not (is_valid_id parent) || parent == id

unfoldable pub new_refresh_token :
    Uuid → Option Uuid → Text → Time → Option Text → Option Text → Time → Result Error RefreshToken
new_refresh_token id parent hash expires_at ip user_agent now =
    if not (is_valid_id id)
    then err token_identifier_invalid
    else if is_bad_parent parent id
    then err parent_identifier_invalid
    else if is_zero now || not (after expires_at now)
    then err token_expiration_invalid
    else ok (record {
      id = id;
      parent_token_id = parent;
      hash = hash;
      created_from_ip = ip;
      created_user_agent = normalize_optional_text user_agent;
      issued_at = now;
      expires_at = expires_at;
      rotated_at = none;
      revoked_at = none;
      revoke_reason = none;
      reuse_detected_at = none;
    })

unfoldable pub token_changed_at : RefreshToken → Time
token_changed_at t = latest_of t.issued_at (t.rotated_at ∷ t.revoked_at ∷ t.reuse_detected_at ∷ [])

unfoldable pub validate_for_rotation : RefreshToken → Time → Option Error
validate_for_rotation t now =
    if is_zero now || before now (token_changed_at t)
    then some token_use_time_invalid
    else if is_some t.rotated_at
    then some token_already_rotated
    else if is_some t.revoked_at
    then some token_revoked
    else if not (before now t.expires_at)
    then some token_expired
    else none

unfoldable pub mark_rotated : RefreshToken → Time → RefreshToken × Option Error
unfolding validate_for_rotation
mark_rotated t now = elim (validate_for_rotation t now) [
  | some e ↦ (t, some e)
  | none ↦ (record t { rotated_at = some now }, none)
]

unfoldable pub record_reuse_detected : RefreshToken → Time → RefreshToken × Option Error
record_reuse_detected t now =
    if not (is_some t.rotated_at)
    then (t, some token_not_rotated)
    else if is_zero now || before now (token_changed_at t)
    then (t, some token_reuse_time_invalid)
    else (record t { reuse_detected_at = some now }, none)

unfoldable pub revoke_token : RefreshToken → Text → Time → RefreshToken × Option Error
revoke_token t reason now =
    let (normalized, present) = normalize_required_text reason in
    if is_some t.revoked_at
    then (t, none)
    else if is_zero now || before now (token_changed_at t)
    then (t, some token_revocation_time_invalid)
    else if not present
    then (t, some token_reason_required)
    else (record t { revoked_at = some now; revoke_reason = some normalized }, none)
