-- ===== src/Identity/Session.antt =====
-- services/identity/internal/domain/session: session.go. A method returns the session that it leaves
-- and Go's `error`. An IP address is the text that the caller parsed.
pub mod Expiry
mod Tests
use careeria.Base.{
  ◌≡◌, Bool, true, false, not, ◌||◌, ◌&&◌, Option, none, some, List, [], ◌∷◌, if◌then◌else◌,
  is_some, Result, ok, err, Comparable, list_comparable, nat_comparable,
}
use careeria.Base.Text.{Text}
use careeria.Domain.{
  Time, Uuid, before, after, is_zero, is_valid_id, latest_of, normalize_required_text,
  normalize_optional_text, has_duplicates,
}
use careeria.Identity.Authentication as authentication
use careeria.Identity.Authentication.{Method, Level, resolve_level, valid_level, level_equal}

pub data Error : Type 0 where
  identifier_required identity_invalid client_invalid time_invalid : Error
  authentication_time_invalid level_mismatch scope_duplicated expiration_invalid : Error
  use_time_invalid revoked absolute_expired idle_expired idle_expiration_invalid : Error
  revoke_time_invalid reason_required : Error
  authentication_error : authentication.Error → Error

pub record Session : Type 0 where
  pub id : Uuid
  pub identity_id : Uuid
  pub oauth_client_id : Uuid
  pub authentication_level : Level
  pub authenticated_methods : List Method
  pub scopes : List Text
  pub ip_address : Option Text
  pub user_agent : Option Text
  pub device_name : Option Text
  pub created_at : Time
  pub authenticated_at : Time
  pub last_seen_at : Option Time
  pub idle_expires_at : Time
  pub absolute_expires_at : Time
  pub revoked_at : Option Time
  pub revoke_reason : Option Text

unfoldable pub new :
    Uuid
    → Uuid
    → Uuid
    → Level
    → List Method
    → List Text
    → Option Text
    → Option Text
    → Option Text
    → Time
    → Time
    → Time
    → Time
    → Result Error Session
new id identity_id oauth_client_id level methods scopes ip user_agent device_name authenticated_at
      idle_expires_at absolute_expires_at now =
    if not (is_valid_id id)
    then err identifier_required
    else if not (is_valid_id identity_id)
    then err identity_invalid
    else if not (is_valid_id oauth_client_id)
    then err client_invalid
    else if is_zero now
    then err time_invalid
    else if is_zero authenticated_at || after authenticated_at now
    then err authentication_time_invalid
    else elim (resolve_level methods) [
      | err e ↦ err (authentication_error e)
      | ok resolved ↦
          if not (valid_level level) || not (level_equal level resolved)
          then err level_mismatch
          else if has_duplicates scopes
          then err scope_duplicated
          else if not (after idle_expires_at now)
              || (not (after absolute_expires_at now) || after idle_expires_at absolute_expires_at)
          then err expiration_invalid
          else ok (record {
            id = id;
            identity_id = identity_id;
            oauth_client_id = oauth_client_id;
            authentication_level = level;
            authenticated_methods = methods;
            scopes = scopes;
            ip_address = ip;
            user_agent = normalize_optional_text user_agent;
            device_name = normalize_optional_text device_name;
            created_at = now;
            authenticated_at = authenticated_at;
            last_seen_at = none;
            idle_expires_at = idle_expires_at;
            absolute_expires_at = absolute_expires_at;
            revoked_at = none;
            revoke_reason = none;
          })
    ]

abbrev pub latest_changed_at : Session → Time
latest_changed_at s = latest_of s.authenticated_at (s.last_seen_at ∷ s.revoked_at ∷ [])

unfoldable pub validate_for_use : Session → Time → Option Error
validate_for_use s now =
    if is_zero now || before now (latest_changed_at s)
    then some use_time_invalid
    else if is_some s.revoked_at
    then some revoked
    else if not (before now s.absolute_expires_at)
    then some absolute_expired
    else if not (before now s.idle_expires_at)
    then some idle_expired
    else none

unfoldable pub record_activity : Session → Time → Time → Session × Option Error
unfolding validate_for_use
record_activity s now idle_expires_at = elim (validate_for_use s now) [
  | some e ↦ (s, some e)
  | none ↦
      if not (after idle_expires_at now) || after idle_expires_at s.absolute_expires_at
      then (s, some idle_expiration_invalid)
      else let seen = record s { last_seen_at = some now } in
        if after idle_expires_at s.idle_expires_at
        then (record seen { idle_expires_at = idle_expires_at }, none)
        else (seen, none)
]

unfoldable pub revoke : Session → Text → Time → Session × Option Error
revoke s reason now =
    let (normalized, present) = normalize_required_text reason in
    if is_some s.revoked_at
    then (s, none)
    else if is_zero now || before now (latest_changed_at s)
    then (s, some revoke_time_invalid)
    else if not present
    then (s, some reason_required)
    else (record s { revoked_at = some now; revoke_reason = some normalized }, none)
