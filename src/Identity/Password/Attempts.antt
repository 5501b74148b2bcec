-- ===== src/Identity/Password/Attempts.antt =====
-- services/identity/internal/domain/password: auth_state.go, and the policy, the lock reason and the
-- errors of types.go and errors.go. The one lock reason that the code sets is `failed_attempts`.
use careeria.Base.{
  ℕ, zero, suc, ◌+◌, ◌-◌, ◌%◌, ◌^◌, Bool, true, false, not, ◌||◌, Option, none, some, if◌then◌else◌,
  is_some, ltb, Result, ok, err,
}
use careeria.Base.Int.{ℤ, pos, negsuc, int_leb}
use careeria.Domain.{Time, before, is_zero}

pub data Error : Type 0 where
  locked expired compromised : Error
  identity_invalid hash_required reason_required time_invalid expiration_invalid : Error
  max_attempts_invalid lock_duration_invalid not_locked : Error

pub data LockReason : Type 0 where
  failed_attempts_reason : LockReason

pub record FailurePolicy : Type 0 where
  pub max_attempts : ℤ
  pub lock_duration : ℤ

-- `n <= 0`
abbrev pub not_positive : ℤ → Bool
not_positive (pos zero) = true
not_positive (pos (suc n)) = false
not_positive (negsuc n) = true

unfoldable pub validate_policy : FailurePolicy → Option Error
validate_policy p =
    if not_positive p.max_attempts
    then some max_attempts_invalid
    else if not_positive p.lock_duration
    then some lock_duration_invalid
    else none

-- The count of failed attempts is the 64-bit pattern of an `int`.
pub record AuthState : Type 0 where
  pub failed_attempts : ℕ
  pub last_failed_at : Option Time
  pub locked_until : Option Time
  pub lock_reason : Option LockReason
  pub updated_at : Time

unfoldable pub reset : Time → AuthState
reset now = record {
  failed_attempts = 0;
  last_failed_at = none;
  locked_until = none;
  lock_reason = none;
  updated_at = now;
}

unfoldable pub new_auth_state : Time → Result Error AuthState
unfolding reset
new_auth_state now = if is_zero now then err time_invalid else ok (reset now)

-- `s.LockedUntil != nil && now.Before(*s.LockedUntil)`
abbrev pub is_locked : Option Time → Time → Bool
is_locked none now = false
is_locked (some t) now = before now t

unfoldable pub validate_for_authentication : AuthState → Time → Option Error
validate_for_authentication s now =
    if is_zero now || before now s.updated_at
    then some time_invalid
    else if is_locked s.locked_until now
    then some locked
    else none

-- The `int` of a 64-bit pattern.
abbrev pub int_of : ℕ → ℤ
int_of n = if ltb n (2 ^ 63) then pos n else negsuc (2 ^ 64 - suc n)

-- `count >= limit`
abbrev pub reaches : ℕ → ℤ → Bool
reaches count limit = int_leb limit (int_of count)

-- `now.Add(duration)`
abbrev pub time_after : Time → ℤ → Time
time_after now (pos d) = now + d
time_after now (negsuc d) = now - suc d

unfoldable pub record_failed_attempt :
    AuthState → FailurePolicy → Time → AuthState × Result Error Bool
unfolding validate_policy validate_for_authentication reset
record_failed_attempt s policy now = elim (validate_policy policy) [
  | some e ↦ (s, err e)
  | none ↦ elim (validate_for_authentication s now) [
    | some e ↦ (s, err e)
    | none ↦
        let fresh = if is_some s.locked_until then reset now else s in
        let count = (fresh.failed_attempts + 1) % 2 ^ 64 in
        let counted = record fresh {
          failed_attempts = count;
          last_failed_at = some now;
          updated_at = now;
        } in
        if reaches count policy.max_attempts
        then (
          record counted {
            locked_until = some (time_after now policy.lock_duration);
            lock_reason = some failed_attempts_reason;
          },
          ok true,
        )
        else (counted, ok false)
  ]
]

unfoldable pub unlock : AuthState → Time → AuthState × Option Error
unfolding reset
unlock s now =
    if is_zero now || before now s.updated_at
    then (s, some time_invalid)
    else if not (is_some s.locked_until)
    then (s, some not_locked)
    else (reset now, none)
