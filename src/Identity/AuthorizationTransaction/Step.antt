-- ===== src/Identity/AuthorizationTransaction/Step.antt =====
-- services/identity/internal/domain/authorizationtransaction/next_step.go, and the other types of
-- strings of types.go. A string that is no known value is `other_step` and so on; `finish` leaves
-- the empty string as the step.
use careeria.Base.{
  ℕ, Bool, true, false, ◌||◌, if◌then◌else◌, ◌==◌, ltb, Result, ok, err, is_empty, equal,
  nat_comparable, list_comparable,
}
use careeria.Base.Text.{Text, byte_length}
use careeria.Domain.{Time, Uuid, is_zero}

pub data NextStep : Type 0 where
  choose_authentication_method password_change email_verification phone_verification : NextStep
  mfa_enrollment mfa consent ready : NextStep
  other_step : Text → NextStep

abbrev pub step_equal : NextStep → NextStep → Bool
step_equal choose_authentication_method choose_authentication_method = true
step_equal password_change password_change = true
step_equal email_verification email_verification = true
step_equal phone_verification phone_verification = true
step_equal mfa_enrollment mfa_enrollment = true
step_equal mfa mfa = true
step_equal consent consent = true
step_equal ready ready = true
step_equal (other_step a) (other_step b) = equal a b
step_equal _ _ = false

unfoldable pub can_transition_to : NextStep → NextStep → Bool
can_transition_to choose_authentication_method next =
    step_equal next password_change
    || (step_equal next email_verification
        || (step_equal next phone_verification
            || (step_equal next mfa_enrollment
                || (step_equal next mfa || step_equal next consent))))
can_transition_to password_change next =
    step_equal next email_verification
    || (step_equal next phone_verification
        || (step_equal next mfa_enrollment || (step_equal next mfa || step_equal next consent)))
can_transition_to email_verification next =
    step_equal next phone_verification
    || (step_equal next mfa_enrollment || (step_equal next mfa || step_equal next consent))
can_transition_to phone_verification next =
    step_equal next mfa_enrollment || (step_equal next mfa || step_equal next consent)
can_transition_to mfa_enrollment next = step_equal next consent
can_transition_to mfa next = step_equal next consent
can_transition_to consent next = step_equal next ready
can_transition_to _ next = false

pub data Status : Type 0 where
  status_pending status_ready status_completed status_denied : Status

pub data AuthorizationSource : Type 0 where
  user_consent remembered_grant trusted_client : AuthorizationSource

pub data VerificationChannel : Type 0 where
  email phone : VerificationChannel

abbrev pub channel_equal : VerificationChannel → VerificationChannel → Bool
channel_equal email email = true
channel_equal phone phone = true
channel_equal _ _ = false

pub data ReferenceError : Type 0 where
  contact_required challenge_required reference_expiration_required : ReferenceError

pub record VerificationReference : Type 0 where
  pub channel : VerificationChannel
  pub contact_id : Uuid
  pub challenge_id : Uuid
  pub expires_at : Time

unfoldable pub new_verification_reference :
    VerificationChannel → Uuid → Uuid → Time → Result ReferenceError VerificationReference
new_verification_reference channel contact_id challenge_id expires_at =
    if contact_id == 0
    then err contact_required
    else if challenge_id == 0
    then err challenge_required
    else if is_zero expires_at
    then err reference_expiration_required
    else ok (record {
      channel = channel;
      contact_id = contact_id;
      challenge_id = challenge_id;
      expires_at = expires_at;
    })

pub data StateError : Type 0 where
  state_required state_too_long : StateError

abbrev pub max_state_length : ℕ
max_state_length = 2048

unfoldable pub new_state : Text → Result StateError Text
unfolding byte_length
new_state value =
    if is_empty value
    then err state_required
    else if ltb max_state_length (byte_length value)
    then err state_too_long
    else ok value
