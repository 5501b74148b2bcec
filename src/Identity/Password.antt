-- ===== src/Identity/Password.antt =====
-- services/identity/internal/domain/password: password.go, types.go and errors.go; the two parts of a
-- password are in the children. Pointers to a password, a credential or a state are never nil.
pub mod Attempts
pub mod Secret
pub mod Calls
pub mod Lockout
pub mod Compromise
mod Tests
use careeria.Base.{
  Bool, true, false, not, ◌||◌, Option, none, some, if◌then◌else◌, is_empty, Result, ok, err, List,
  ◌>>=◌,
}
use careeria.Base.Text.{Text}
use careeria.Domain.{
  Time, Uuid, before, after, is_zero, is_valid_id, has_text, normalize_required_text,
}
use careeria.Identity.Password.Attempts.{
  Error, identity_invalid, hash_required, reason_required, time_invalid, FailurePolicy, AuthState,
  new_auth_state, reset, validate_policy,
}
use careeria.Identity.Password.Attempts as attempts
use careeria.Identity.Password.Secret.{Credential, new_credential}
use careeria.Identity.Password.Secret as secret

unfoldable pub new_hash : Text → Result Error Text
new_hash value = if not (has_text value) then err hash_required else ok value

unfoldable pub new_lock_reason : Text → Result Error Text
new_lock_reason value =
    let (value, ok_value) = normalize_required_text value in
    if not ok_value then err reason_required else ok value

pub record Password : Type 0 where
  pub identity_id : Uuid
  pub credential : Credential
  pub auth_state : AuthState

unfoldable pub new : Uuid → Text → Bool → Option Time → Time → Result Error Password
unfolding new_credential new_auth_state
new identity hash must_change expires_at now =
    if not (is_valid_id identity)
    then err identity_invalid
    else elim (new_credential hash must_change expires_at now) [
      | err e ↦ err e
      | ok c ↦ elim (new_auth_state now) [
        | err e ↦ err e
        | ok s ↦ ok (record { identity_id = identity; credential = c; auth_state = s })
      ]
    ]

unfoldable pub latest_updated_at : Password → Time
latest_updated_at p =
    if after p.auth_state.updated_at p.credential.updated_at
    then p.auth_state.updated_at
    else p.credential.updated_at

unfoldable pub ensure_change_allowed : Password → Time → Option Error
unfolding latest_updated_at
ensure_change_allowed p now =
    if is_zero now || before now (latest_updated_at p) then some time_invalid else none

unfoldable pub ensure_authentication_allowed : Password → Time → Option Error
unfolding latest_updated_at attempts.validate_for_authentication secret.validate_for_authentication
ensure_authentication_allowed p now =
    if is_zero now || before now (latest_updated_at p)
    then some time_invalid
    else elim (attempts.validate_for_authentication p.auth_state now) [
      | some e ↦ some e
      | none ↦ secret.validate_for_authentication p.credential now
    ]

unfoldable pub change : Password → Text → Bool → Option Time → Time → Password × Option Error
unfolding ensure_change_allowed secret.change
change p hash must_change expires_at now = elim (ensure_change_allowed p now) [
  | some e ↦ (p, some e)
  | none ↦ elim (secret.change p.credential hash must_change expires_at now) [
    | err e ↦ (p, some e)
    | ok c ↦ (record p { credential = c; auth_state = reset now }, none)
  ]
]

unfoldable pub require_change : Password → Time → Password × Option Error
unfolding ensure_change_allowed secret.require_change
require_change p now = elim (ensure_change_allowed p now) [
  | some e ↦ (p, some e)
  | none ↦ elim (secret.require_change p.credential now) [
    | err e ↦ (p, some e)
    | ok (c, changed) ↦ (record p { credential = c }, none)
  ]
]

unfoldable pub mark_compromised : Password → Time → Password × Option Error
unfolding ensure_change_allowed secret.mark_compromised
mark_compromised p now = elim (ensure_change_allowed p now) [
  | some e ↦ (p, some e)
  | none ↦ elim (secret.mark_compromised p.credential now) [
    | err e ↦ (p, some e)
    | ok (c, changed) ↦ (record p { credential = c }, none)
  ]
]

-- The Boolean tells whether the password is locked now.
unfoldable pub record_failed_attempt :
    Password → FailurePolicy → Time → Password × Result Error Bool
unfolding ensure_change_allowed ensure_authentication_allowed validate_policy
    attempts.record_failed_attempt
record_failed_attempt p policy now = elim (ensure_change_allowed p now) [
  | some e ↦ (p, err e)
  | none ↦ elim (validate_policy policy) [
    | some e ↦ (p, err e)
    | none ↦ elim (ensure_authentication_allowed p now) [
      | some e ↦ (p, err e)
      | none ↦
          let (s, locked) = attempts.record_failed_attempt p.auth_state policy now in
          (record p { auth_state = s }, locked)
    ]
  ]
]

unfoldable pub record_successful_authentication : Password → Time → Password × Option Error
unfolding ensure_change_allowed ensure_authentication_allowed
record_successful_authentication p now = elim (ensure_change_allowed p now) [
  | some e ↦ (p, some e)
  | none ↦ elim (ensure_authentication_allowed p now) [
    | some e ↦ (p, some e)
    | none ↦ (record p { auth_state = reset now }, none)
  ]
]

unfoldable pub unlock : Password → Time → Password × Option Error
unfolding ensure_change_allowed attempts.unlock
unlock p now = elim (ensure_change_allowed p now) [
  | some e ↦ (p, some e)
  | none ↦ let (s, e) = attempts.unlock p.auth_state now in (record p { auth_state = s }, e)
]
