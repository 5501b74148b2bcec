-- ===== src/Identity/AuthorizationTransaction.antt =====
-- services/identity/internal/domain/authorizationtransaction: authorization_transaction.go,
-- authentication.go, registration.go and mfa_enrollment.go. A method returns the transaction that
-- it leaves and Go's `error`. `ParseStatus`, `ParseAuthorizationSource` and
-- `ParseVerificationChannel` have accepted the status, source and channel.
pub mod Step
pub mod Authenticating
pub mod Calls
pub mod Changes
pub mod Budget
pub mod Invariant
pub mod Guarantees
mod Tests
use careeria.Base.{
  ◌≡◌, Bool, true, false, not, ◌||◌, ◌&&◌, Option, none, some, List, [], ◌∷◌, ◌++◌, if◌then◌else◌,
  is_some, is_empty, ◌==◌, Result, ok, err, ◌>>=◌, contains, Comparable, nat_comparable,
  list_comparable,
}
use careeria.Base.Text.{Text, codes}
use careeria.Domain.{Time, Uuid, before, after, is_zero, is_valid_id, has_duplicates}
use careeria.Identity.Authentication as authentication
use careeria.Identity.Authentication.{
  Method, password, Level, valid_method, resolve_level, method_comparable,
}
use Step.{
  NextStep, choose_authentication_method, password_change, email_verification, phone_verification,
  mfa_enrollment, mfa, consent, ready, other_step, step_equal, can_transition_to, Status,
  status_pending, status_ready, status_completed, status_denied, AuthorizationSource,
  VerificationChannel, email, phone, channel_equal, ReferenceError, VerificationReference,
  new_verification_reference,
}

pub data Error : Type 0 where
  expired invalid_status invalid_step identity_mismatch pkce_required : Error
  identifier_required client_invalid scope_duplicated expiration_invalid time_invalid : Error
  scope_required granted_duplicated granted_not_requested snapshot_missing : Error
  identity_invalid method_invalid method_duplicated : Error
  reference_missing channel_mismatch challenge_expired already_bound : Error
  challenge_expiration_invalid : Error
  authentication_error : authentication.Error → Error
  reference_error : ReferenceError → Error

pub record Pkce : Type 0 where
  pub challenge : Text
  pub method : Text

pub record AuthorizationTransaction : Type 0 where
  pub id : Uuid
  pub oauth_client_id : Uuid
  pub redirect_uri : Text
  pub requested_scopes : List Text
  pub state : Option Text
  pub nonce : Option Text
  pub pkce : Option Pkce
  pub status : Status
  pub next_step : NextStep
  pub identity_id : Option Uuid
  pub authentication_level : Option Level
  pub authenticated_methods : List Method
  pub granted_scopes : List Text
  pub authorization_source : Option AuthorizationSource
  pub verification : Option VerificationReference
  pub authenticated_at : Option Time
  pub expires_at : Time

abbrev pub is_pending : Status → Bool
is_pending status_pending = true
is_pending _ = false

abbrev pub is_ready : Status → Bool
is_ready status_ready = true
is_ready _ = false

unfoldable pub new :
    Uuid
    → Uuid
    → Text
    → List Text
    → Option Text
    → Option Text
    → Bool
    → Option Pkce
    → Time
    → Time
    → Result Error AuthorizationTransaction
new id client redirect_uri requested state nonce require_pkce pkce expires_at now =
    if require_pkce && not (is_some pkce)
    then err pkce_required
    else if not (is_valid_id id)
    then err identifier_required
    else if not (is_valid_id client)
    then err client_invalid
    else if has_duplicates requested
    then err scope_duplicated
    else if is_zero now || not (after expires_at now)
    then err expiration_invalid
    else ok (record {
      id = id;
      oauth_client_id = client;
      redirect_uri = redirect_uri;
      requested_scopes = requested;
      state = state;
      nonce = nonce;
      pkce = pkce;
      status = status_pending;
      next_step = choose_authentication_method;
      identity_id = none;
      authentication_level = none;
      authenticated_methods = [];
      granted_scopes = [];
      authorization_source = none;
      verification = none;
      authenticated_at = none;
      expires_at = expires_at;
    })

unfoldable pub ensure_change_allowed : AuthorizationTransaction → Time → Option Error
ensure_change_allowed t now =
    if is_zero now
    then some time_invalid
    else if not (before now t.expires_at)
    then some expired
    else none

unfoldable pub transition_to :
    AuthorizationTransaction → NextStep → AuthorizationTransaction × Option Error
transition_to t step =
    if not (is_pending t.status)
    then (t, some invalid_status)
    else if not (can_transition_to t.next_step step)
    then (t, some invalid_step)
    else (record t { next_step = step }, none)

abbrev pub finish : AuthorizationTransaction → Status → AuthorizationTransaction
finish t status = record t {
  status = status;
  next_step = other_step (codes "");
  verification = none;
}

-- The last loop of `ensureGrantedScopesAllowed`.
unfoldable pub all_requested : List Text → List Text → Bool
all_requested requested [] = true
all_requested requested (scope ∷ granted) =
    contains requested scope && all_requested requested granted

unfoldable pub ensure_granted_scopes_allowed : AuthorizationTransaction → List Text → Option Error
unfolding all_requested
ensure_granted_scopes_allowed t granted =
    if has_duplicates granted
    then some granted_duplicated
    else if not (all_requested t.requested_scopes granted)
    then some granted_not_requested
    else none

unfoldable pub authorize_scopes :
    AuthorizationTransaction
    → List Text
    → AuthorizationSource
    → Time
    → AuthorizationTransaction × Option Error
unfolding ensure_change_allowed ensure_granted_scopes_allowed transition_to
authorize_scopes t granted source now = elim (ensure_change_allowed t now) [
  | some e ↦ (t, some e)
  | none ↦
      if not (is_pending t.status)
        || (not (step_equal t.next_step consent) || not (is_some t.authentication_level))
      then (t, some invalid_status)
      else if is_empty granted
      then (t, some scope_required)
      else elim (ensure_granted_scopes_allowed t granted) [
        | some e ↦ (t, some e)
        | none ↦ transition_to t ready >>= λ moved. (
          record moved {
            granted_scopes = granted;
            authorization_source = some source;
            status = status_ready;
          },
          none,
        )
      ]
]

unfoldable pub complete : AuthorizationTransaction → Time → AuthorizationTransaction × Option Error
unfolding ensure_change_allowed
complete t now = elim (ensure_change_allowed t now) [
  | some e ↦ (t, some e)
  | none ↦
      if not (is_ready t.status) || not (step_equal t.next_step ready)
      then (t, some invalid_status)
      else if not (is_some t.identity_id)
          || (not (is_some t.authentication_level) || not (is_some t.authenticated_at))
      then (t, some snapshot_missing)
      else (finish t status_completed, none)
]

unfoldable pub deny : AuthorizationTransaction → Time → AuthorizationTransaction × Option Error
unfolding ensure_change_allowed
deny t now = elim (ensure_change_allowed t now) [
  | some e ↦ (t, some e)
  | none ↦
      if not (is_pending t.status) then (t, some invalid_status) else (finish t status_denied, none)
]
