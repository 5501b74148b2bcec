-- ===== src/Identity/EmailChallenge.antt =====
-- services/identity/internal/domain/emailverificationchallenge. A method returns the challenge that
-- it leaves and Go's result. The bound of attempts is 0 where it is not positive; the count of
-- attempts is an int, as its 64-bit pattern.
pub mod Attempts
mod Tests
use careeria.Base.{
  ℕ, ◌+◌, ◌%◌, ◌^◌, Bool, true, false, not, ◌||◌, Option, none, some, [], ◌∷◌, leb, ◌==◌,
  if◌then◌else◌, is_some, Result, ok, err,
}
use careeria.Base.Text.{Text}
use careeria.Domain.{Time, Uuid, before, after, is_zero, is_valid_id, later, latest_of, has_text}

pub data Error : Type 0 where
  identifier_required email_invalid max_attempts_not_positive expiration_invalid : Error
  time_invalid revoke_time_invalid consumed revoked lapsed attempts_exhausted : Error
  token_hash_required : Error

pub data AttemptOutcome : Type 0 where
  recorded exhausted : AttemptOutcome

unfoldable pub new_token_hash : Text → Result Error Text
unfolding has_text
new_token_hash value = if not (has_text value) then err token_hash_required else ok value

pub record EmailVerificationChallenge : Type 0 where
  pub id : Uuid
  pub email_id : Uuid
  pub token_hash : Text
  pub attempts : ℕ
  pub max_attempts : ℕ
  pub requested_from_ip : Option Text
  pub consumed_from_ip : Option Text
  pub created_at : Time
  pub expires_at : Time
  pub last_attempt_at : Option Time
  pub consumed_at : Option Time
  pub revoked_at : Option Time

unfoldable pub new :
    Uuid → Uuid → Text → ℕ → Time → Option Text → Time → Result Error EmailVerificationChallenge
new id email_id token_hash max_attempts expires_at requested_from_ip now =
    if not (is_valid_id id)
    then err identifier_required
    else if not (is_valid_id email_id)
    then err email_invalid
    else if leb max_attempts 0
    then err max_attempts_not_positive
    else if is_zero now || not (after expires_at now)
    then err expiration_invalid
    else ok (record {
      id = id;
      email_id = email_id;
      token_hash = token_hash;
      attempts = 0;
      max_attempts = max_attempts;
      requested_from_ip = requested_from_ip;
      consumed_from_ip = none;
      created_at = now;
      expires_at = expires_at;
      last_attempt_at = none;
      consumed_at = none;
      revoked_at = none;
    })

abbrev pub latest_attempt_at : EmailVerificationChallenge → Time
latest_attempt_at c = later c.last_attempt_at c.created_at

abbrev pub latest_changed_at : EmailVerificationChallenge → Time
latest_changed_at c = latest_of (latest_attempt_at c) (c.consumed_at ∷ c.revoked_at ∷ [])

unfoldable pub ensure_attempt_allowed : EmailVerificationChallenge → Time → Option Error
ensure_attempt_allowed c now =
    if is_zero now || before now (latest_changed_at c)
    then some time_invalid
    else if is_some c.consumed_at
    then some consumed
    else if is_some c.revoked_at
    then some revoked
    else if not (before now c.expires_at)
    then some lapsed
    else if leb c.max_attempts c.attempts
    then some attempts_exhausted
    else none

-- `c.Attempts++; c.LastAttemptAt = &now`
abbrev pub count_attempt : EmailVerificationChallenge → Time → EmailVerificationChallenge
count_attempt c now = record c { attempts = (c.attempts + 1) % 2 ^ 64; last_attempt_at = some now }

unfoldable pub record_failed_attempt :
    EmailVerificationChallenge → Time → EmailVerificationChallenge × Result Error AttemptOutcome
unfolding ensure_attempt_allowed
record_failed_attempt c now = elim (ensure_attempt_allowed c now) [
  | some e ↦ (c, err e)
  | none ↦
      let c' = count_attempt c now in
      (c', if c'.attempts == c'.max_attempts then ok exhausted else ok recorded)
]

unfoldable pub consume :
    EmailVerificationChallenge → Option Text → Time → EmailVerificationChallenge × Option Error
unfolding ensure_attempt_allowed
consume c consumed_from_ip now = elim (ensure_attempt_allowed c now) [
  | some e ↦ (c, some e)
  | none ↦
      let c' = count_attempt c now in
      (record c' { consumed_at = some now; consumed_from_ip = consumed_from_ip }, none)
]

unfoldable pub revoke :
    EmailVerificationChallenge → Time → EmailVerificationChallenge × Option Error
revoke c now =
    if is_some c.revoked_at
    then (c, none)
    else if is_some c.consumed_at
    then (c, some consumed)
    else if is_zero now || before now (latest_changed_at c)
    then (c, some revoke_time_invalid)
    else (record c { revoked_at = some now }, none)
