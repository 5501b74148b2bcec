-- ===== src/Identity/Mfa/Totp.antt =====
-- services/identity/internal/domain/mfa/totp.go: the configuration of a TOTP factor.
use careeria.Base.{Bool, not, ◌&&◌, ◌||◌, Option, none, some, if◌then◌else◌, Result, ok, err}
use careeria.Base.Int.{ℤ, pos, int_leb, int_equal}
use careeria.Base.Text.{Text}
use careeria.Domain.{Time, is_zero, before}
use careeria.Identity.Mfa.Types.{
  Error, Bytes, TotpAlgorithm, digits_invalid, period_invalid, totp_time_invalid,
  totp_use_time_invalid, time_step_invalid, totp_replay,
}

pub record Totp : Type 0 where
  pub secret_encrypted : Bytes
  pub encryption_key_ref : Text
  pub algorithm : TotpAlgorithm
  pub digits : ℤ
  pub period_seconds : ℤ
  pub last_used_time_step : Option ℤ
  pub updated_at : Time

unfoldable pub new_totp : Bytes → Text → TotpAlgorithm → ℤ → ℤ → Time → Result Error Totp
new_totp secret_encrypted encryption_key_ref algorithm digits period_seconds now =
    if not (int_equal digits (pos 6)) && not (int_equal digits (pos 8))
    then err digits_invalid
    else if int_leb period_seconds (pos 0)
    then err period_invalid
    else if is_zero now
    then err totp_time_invalid
    else ok (record {
      secret_encrypted = secret_encrypted;
      encryption_key_ref = encryption_key_ref;
      algorithm = algorithm;
      digits = digits;
      period_seconds = period_seconds;
      last_used_time_step = none;
      updated_at = now;
    })

-- `last != nil && value <= *last`
abbrev pub replays : ℤ → Option ℤ → Bool
replays value none = Bool.false
replays value (some last) = int_leb value last

unfoldable pub record_use : Totp → ℤ → Time → Totp × Option Error
record_use t time_step now =
    if is_zero now || before now t.updated_at
    then (t, some totp_use_time_invalid)
    else if not (int_leb (pos 0) time_step)
    then (t, some time_step_invalid)
    else if replays time_step t.last_used_time_step
    then (t, some totp_replay)
    else (record t { last_used_time_step = some time_step; updated_at = now }, none)
