-- ===== src/Identity/AuthorizationTransaction/Authenticating.antt =====
-- services/identity/internal/domain/authorizationtransaction: authentication.go, registration.go and
-- mfa_enrollment.go.
use careeria.Base.{
  Bool, false, not, ◌&&◌, ◌||◌, Option, none, some, List, [], ◌∷◌, ◌++◌, if◌then◌else◌, is_some,
  is_empty, ◌==◌, Result, ok, err, ◌>>=◌, contains,
}
use careeria.Domain.{Time, Uuid, before, after, is_valid_id}
use careeria.Identity.Authentication.{
  Method, password, Level, valid_method, resolve_level, method_comparable,
}
use careeria.Identity.AuthorizationTransaction.Step.{
  NextStep, choose_authentication_method, password_change, email_verification, phone_verification,
  mfa_enrollment, mfa, consent, step_equal, can_transition_to, VerificationChannel, email, phone,
  channel_equal, VerificationReference, new_verification_reference,
}
use careeria.Identity.AuthorizationTransaction.{
  Error, invalid_status, invalid_step, identity_mismatch, identity_invalid, method_invalid,
  method_duplicated, reference_missing, channel_mismatch, challenge_expired, already_bound,
  challenge_expiration_invalid, authentication_error, reference_error, AuthorizationTransaction,
  is_pending, ensure_change_allowed, transition_to,
}

unfoldable pub resolve_authentication_completion :
    List Method → NextStep → Result Error (Option Level)
resolve_authentication_completion methods next_step =
    if not (step_equal next_step consent) then ok none else elim (resolve_level methods) [
      | err e ↦ err (authentication_error e)
      | ok level ↦ ok (some level)
    ]

abbrev pub complete_authentication :
    AuthorizationTransaction → Option Level → Time → AuthorizationTransaction
complete_authentication t none now = t
complete_authentication t (some level) now = record t {
  authentication_level = some level;
  authenticated_at = some now;
}

-- `t.IdentityID != nil && *t.IdentityID != identityID`
abbrev pub is_other : Option Uuid → Uuid → Bool
is_other none id = false
is_other (some i) id = not (i == id)

unfoldable pub apply_authentication :
    AuthorizationTransaction
    → NextStep
    → Uuid
    → Method
    → NextStep
    → Time
    → AuthorizationTransaction × Option Error
unfolding ensure_change_allowed transition_to resolve_authentication_completion
apply_authentication t current_step identity_id method next_step now =
    let methods = t.authenticated_methods ++ method ∷ [] in
    elim (ensure_change_allowed t now) [
      | some e ↦ (t, some e)
      | none ↦
          if not (is_pending t.status)
          then (t, some invalid_status)
          else if not (step_equal t.next_step current_step) || is_some t.authentication_level
          then (t, some invalid_step)
          else if not (is_valid_id identity_id)
          then (t, some identity_invalid)
          else if not (valid_method method)
          then (t, some method_invalid)
          else if is_other t.identity_id identity_id
          then (t, some identity_mismatch)
          else if contains t.authenticated_methods method
          then (t, some method_duplicated)
          else elim (resolve_authentication_completion methods next_step) [
            | err e ↦ (t, some e)
            | ok level ↦ transition_to t next_step >>= λ moved. (
              complete_authentication
                  (record moved { identity_id = some identity_id; authenticated_methods = methods })
                  level now,
              none,
            )
          ]
    ]

unfoldable pub complete_primary_authentication :
    AuthorizationTransaction
    → Uuid
    → Method
    → NextStep
    → Time
    → AuthorizationTransaction × Option Error
unfolding apply_authentication
complete_primary_authentication t identity_id method next_step now =
    apply_authentication t choose_authentication_method identity_id method next_step now

unfoldable pub complete_mfa :
    AuthorizationTransaction → Uuid → Method → Time → AuthorizationTransaction × Option Error
unfolding apply_authentication
complete_mfa t identity_id method now = apply_authentication t mfa identity_id method consent now

unfoldable pub complete_required_step :
    AuthorizationTransaction → NextStep → NextStep → Time → AuthorizationTransaction × Option Error
unfolding ensure_change_allowed transition_to resolve_authentication_completion
complete_required_step t current_step next_step now = elim (ensure_change_allowed t now) [
  | some e ↦ (t, some e)
  | none ↦
      if not (is_pending t.status)
      then (t, some invalid_status)
      else if not (step_equal t.next_step current_step)
          || (is_some t.authentication_level || not (is_some t.identity_id))
      then (t, some invalid_step)
      else elim (resolve_authentication_completion t.authenticated_methods next_step) [
        | err e ↦ (t, some e)
        | ok level ↦
            transition_to t next_step >>= λ moved. (complete_authentication moved level now, none)
      ]
]

unfoldable pub complete_password_change :
    AuthorizationTransaction → NextStep → Time → AuthorizationTransaction × Option Error
unfolding complete_required_step
complete_password_change t next_step now = complete_required_step t password_change next_step now

unfoldable pub skip_mfa_enrollment :
    AuthorizationTransaction → Time → AuthorizationTransaction × Option Error
unfolding complete_required_step
skip_mfa_enrollment t now = complete_required_step t mfa_enrollment consent now

-- `ensureVerificationReference`, by the reference.
unfoldable pub reference_error_of :
    Option VerificationReference → VerificationChannel → Time → Option Error
reference_error_of none channel now = some reference_missing
reference_error_of (some v) channel now =
    if not (channel_equal v.channel channel)
    then some channel_mismatch
    else if not (before now v.expires_at)
    then some challenge_expired
    else none

-- What `CompleteEmailVerification` and `CompletePhoneVerification` share.
unfoldable pub complete_verification :
    AuthorizationTransaction
    → NextStep
    → VerificationChannel
    → NextStep
    → Time
    → AuthorizationTransaction × Option Error
unfolding reference_error_of complete_required_step
complete_verification t step channel next_step now =
    if not (step_equal t.next_step step) || not (can_transition_to t.next_step next_step)
    then (t, some invalid_step)
    else elim (reference_error_of t.verification channel now) [
      | some e ↦ (t, some e)
      | none ↦ complete_required_step t step next_step now >>= λ done.
          (record done { verification = none }, none)
    ]

unfoldable pub complete_email_verification :
    AuthorizationTransaction → NextStep → Time → AuthorizationTransaction × Option Error
unfolding complete_verification
complete_email_verification t next_step now =
    complete_verification t email_verification email next_step now

unfoldable pub complete_phone_verification :
    AuthorizationTransaction → NextStep → Time → AuthorizationTransaction × Option Error
unfolding complete_verification
complete_phone_verification t next_step now =
    complete_verification t phone_verification phone next_step now

unfoldable pub bind_verification :
    AuthorizationTransaction
    → NextStep
    → VerificationChannel
    → Uuid
    → Uuid
    → Time
    → Time
    → AuthorizationTransaction × Option Error
unfolding ensure_change_allowed new_verification_reference
bind_verification t step channel contact_id challenge_id expires_at now =
    elim (ensure_change_allowed t now) [
      | some e ↦ (t, some e)
      | none ↦
          if not (is_pending t.status) || not (step_equal t.next_step step)
          then (t, some invalid_step)
          else if is_some t.verification
          then (t, some already_bound)
          else if not (after expires_at now)
          then (t, some challenge_expiration_invalid)
          else elim (new_verification_reference channel contact_id challenge_id expires_at) [
            | err e ↦ (t, some (reference_error e))
            | ok reference ↦ (record t { verification = some reference }, none)
          ]
    ]

unfoldable pub bind_email_verification :
    AuthorizationTransaction → Uuid → Uuid → Time → Time → AuthorizationTransaction × Option Error
unfolding bind_verification
bind_email_verification t email_id challenge_id expires_at now =
    bind_verification t email_verification email email_id challenge_id expires_at now

unfoldable pub bind_phone_verification :
    AuthorizationTransaction → Uuid → Uuid → Time → Time → AuthorizationTransaction × Option Error
unfolding bind_verification
bind_phone_verification t phone_id challenge_id expires_at now =
    bind_verification t phone_verification phone phone_id challenge_id expires_at now

unfoldable pub begin_password_registration :
    AuthorizationTransaction → Uuid → NextStep → Time → AuthorizationTransaction × Option Error
unfolding ensure_change_allowed transition_to
begin_password_registration t identity_id verification_step now =
    elim (ensure_change_allowed t now) [
      | some e ↦ (t, some e)
      | none ↦
          if not (is_pending t.status)
          then (t, some invalid_status)
          else if not (step_equal t.next_step choose_authentication_method)
              || (is_some t.identity_id || not (is_empty t.authenticated_methods))
          then (t, some invalid_step)
          else if not (is_valid_id identity_id)
          then (t, some identity_invalid)
          else if not (step_equal verification_step email_verification)
              && not (step_equal verification_step phone_verification)
          then (t, some invalid_step)
          else transition_to t verification_step >>= λ moved. (
            record moved { identity_id = some identity_id; authenticated_methods = password ∷ [] },
            none,
          )
    ]
