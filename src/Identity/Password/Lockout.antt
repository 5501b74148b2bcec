-- ===== src/Identity/Password/Lockout.antt =====
-- How often a password can be guessed: services/identity/internal/domain/password.
use careeria.Base.{
  ◌≡◌, ◌≤◌, ◌<◌, refl, ap, ◌∙◌, ℕ, ◌+◌, ◌%◌, ◌^◌, Bool, true, false, none, some, List, [], ◌∷◌, All,
  All-mono, if◌then◌else◌, is_some, Result, ok, err, arith,
}
use careeria.Base.Guards.{branched, checked}
use careeria.Base.Int.{ℤ, pos}
use careeria.Domain.{Time}
use careeria.Identity.Password.Attempts.{
  Error, FailurePolicy, AuthState, failed_attempts_reason, reset, validate_policy, is_locked,
  reaches, time_after,
}
use careeria.Identity.Password.Attempts as attempts
use careeria.Identity.Password.{
  Password, ensure_change_allowed, ensure_authentication_allowed, record_failed_attempt,
}
use careeria.Identity.Password.Calls.{guess, is_ok}

-- The state that an attempt counts from: a lock that is over is forgotten.
abbrev pub fresh : AuthState → Time → AuthState
fresh s now = if is_some s.locked_until then reset now else s

abbrev pub counted : AuthState → Time → AuthState
counted s now = record (fresh s now) {
  failed_attempts = ((fresh s now).failed_attempts + 1) % 2 ^ 64;
  last_failed_at = some now;
  updated_at = now;
}

-- What a wrong guess does: it is refused and changes nothing, it counts, or it counts and locks.
pub data Guess (p : Password) (policy : FailurePolicy) (now : Time)
    : Password × Result Error Bool → Type 0 where
  refused : (e : Error) → Guess p policy now (p, err e)
  counts :
      is_locked p.auth_state.locked_until now ≡ false
      → p.auth_state.updated_at ≤ now
      → reaches (((fresh p.auth_state now).failed_attempts + 1) % 2 ^ 64) policy.max_attempts
        ≡ false
      → Guess p policy now (record p { auth_state = counted p.auth_state now }, ok false)
  locks :
      is_locked p.auth_state.locked_until now ≡ false
      → p.auth_state.updated_at ≤ now
      → reaches (((fresh p.auth_state now).failed_attempts + 1) % 2 ^ 64) policy.max_attempts ≡ true
      → Guess p policy now (
        record p {
          auth_state = record (counted p.auth_state now) {
            locked_until = some (time_after now policy.lock_duration);
            lock_reason = some failed_attempts_reason;
          };
        },
        ok true,
      )

valid_state :
    (s : AuthState) (now : Time)
    → attempts.validate_for_authentication s now ≡ none
    → (is_locked s.locked_until now ≡ false) × (s.updated_at ≤ now)
unfolding attempts.validate_for_authentication
valid_state s now h = ground arith

pub record_failed_attempt-Guess :
    (p : Password) (policy : FailurePolicy) (now : Time)
    → Guess p policy now (record_failed_attempt p policy now)
unfolding record_failed_attempt attempts.record_failed_attempt
record_failed_attempt-Guess p policy now =
    checked (Guess p policy now) (ensure_change_allowed p now) _ _ refused (λ a.
      checked (Guess p policy now) (validate_policy policy) _ _ refused (λ b.
        checked (Guess p policy now) (ensure_authentication_allowed p now) _ _ refused (λ c.
          checked Attempted (validate_policy policy) _ _ refused (λ d.
            checked Attempted (attempts.validate_for_authentication p.auth_state now) _ _ refused
              (λ live.
                let (free, order) = valid_state p.auth_state now live in
                branched Attempted
                  (reaches (((fresh p.auth_state now).failed_attempts + 1) % 2 ^ 64)
                    policy.max_attempts)
                  _ _ (λ full. locks free order full) (λ room. counts free order room))))))
  where
    Attempted : AuthState × Result Error Bool → Type 0
    Attempted r = Guess p policy now (record p { auth_state = r.0 }, r.1)

locked_refused :
    (p : Password) (policy : FailurePolicy) (end now : Time) (r : Password × Result Error Bool)
    → Guess p policy now r
    → p.auth_state.locked_until ≡ some end
    → now < end
    → (e : Error) × (r ≡ (p, err e))
locked_refused p policy end now _ (refused e) at early = (e, refl)
locked_refused p policy end now _ (counts free order room) at early =
    absurd (ground (arith, free, at, early))
locked_refused p policy end now _ (locks free order full) at early =
    absurd (ground (arith, free, at, early))

locked_refuses :
    (p : Password) (policy : FailurePolicy) (end : Time) (times : List Time)
    → p.auth_state.locked_until ≡ some end
    → All (λ t. t < end) times
    → (guess p policy times).1 ≡ 0
unfolding guess
locked_refuses p policy end [] at early = refl
locked_refuses p policy end (now ∷ times) at early =
    let (e, refusal) =
      locked_refused p policy end now (record_failed_attempt p policy now)
        (record_failed_attempt-Guess p policy now) at early.0 in
    rw refusal (locked_refuses p policy end times at early.1)

-- The number of guesses that are looked at, the one that has this result included.
abbrev tally : FailurePolicy → List Time → Password × Result Error Bool → ℕ
tally policy times r =
    if is_ok r.1 then (guess r.0 policy times).1 + 1 else (guess r.0 policy times).1

-- A password that can still be guessed.
abbrev Room : ℕ → Password → Type 0
Room m p = (p.auth_state.locked_until ≡ none) × (p.auth_state.failed_attempts < m)

fresh_free : (s : AuthState) (now : Time) → s.locked_until ≡ none → fresh s now ≡ s
fresh_free s now h = rw h refl

below_limit :
    (m : ℕ) (limit : ℤ) (n : ℕ) → limit ≡ pos m → n < 2 ^ 63 → reaches n limit ≡ false → n < m
below_limit m limit n e small h = ground (arith, e, h)

guess_step :
    (p : Password) (policy : FailurePolicy) (m d start : ℕ) (now : Time) (times : List Time)
    (r : Password × Result Error Bool)
    → policy.max_attempts ≡ pos m
    → m < 2 ^ 63
    → policy.lock_duration ≡ pos d
    → Room m p
    → start ≤ now
    → All (λ t. t < start + d) times
    → ((q : Password) → Room m q → (guess q policy times).1 + q.auth_state.failed_attempts ≤ m)
    → Guess p policy now r
    → tally policy times r + p.auth_state.failed_attempts ≤ m
guess_step p policy m d start now times _ limit fits lock room from early more (refused e) =
    more p room
guess_step p policy m d start now times _ limit fits lock room from early more
      (counts free order some_left) =
    let same = fresh_free p.auth_state now room.0 in
    let count = ap (λ s. s.failed_attempts) same in
    omega (
      arith,
      count,
      more (record p { auth_state = counted p.auth_state now })
          (
            ap (λ s. s.locked_until) same ∙ room.0,
            below_limit m policy.max_attempts _ limit (omega (arith, count, fits, room.1))
                some_left,
          ),
    )
guess_step p policy m d start now times _ limit fits lock room from early more
      (locks free order full) =
    omega (
      arith,
      room.1,
      locked_refuses _ policy (now + d) times (ap (λ l. some (time_after now l)) lock) (
          All-mono (λ t. t < start + d) (λ t. t < now + d) times (λ t h. omega (arith, h, from))
            early),
    )

guess_bounded :
    (policy : FailurePolicy) (m d : ℕ)
    → policy.max_attempts ≡ pos m
    → m < 2 ^ 63
    → policy.lock_duration ≡ pos d
    → (start : Time) (times : List Time) (p : Password) → All (λ t. start ≤ t) times
    → All (λ t. t < start + d) times
    → Room m p
    → (guess p policy times).1 + p.auth_state.failed_attempts ≤ m
unfolding guess
guess_bounded policy m d limit fits lock start [] p from early room = omega (arith, room.1)
guess_bounded policy m d limit fits lock start (now ∷ times) p from early room =
    guess_step p policy m d start now times (record_failed_attempt p policy now) limit fits lock
      room from.0 early.1
      (λ q. guess_bounded policy m d limit fits lock start times q from.1 early.1)
      (record_failed_attempt-Guess p policy now)

-- A password cannot be guessed quickly: with a positive `MaxAttempts` that an `int` can hold, on an
-- unlocked password with fewer failed attempts than that, at most `MaxAttempts` of the wrong
-- guesses at any times within one `LockDuration` of some start are looked at, the failed attempts
-- before them included. The others are refused.
pub guess-le :
    (p : Password) (policy : FailurePolicy) (m d : ℕ) (start : Time) (times : List Time)
    → policy.max_attempts ≡ pos m
    → m < 2 ^ 63
    → policy.lock_duration ≡ pos d
    → p.auth_state.locked_until ≡ none
    → p.auth_state.failed_attempts < m
    → All (λ t. start ≤ t) times
    → All (λ t. t < start + d) times
    → (guess p policy times).1 + p.auth_state.failed_attempts ≤ m
guess-le p policy m d start times limit fits lock free room from early =
    guess_bounded policy m d limit fits lock start times p from early (free, room)
