-- ===== src/Identity/EmailChallenge/Attempts.antt =====
-- Sequences of calls on an email verification challenge of
-- services/identity/internal/domain/emailverificationchallenge/challenge.go.
use careeria.Base.{
  ℕ, ◌+◌, ◌^◌, ◌≤◌, ◌<◌, ◌≡◌, ◌≢◌, ◌⊎◌, refl, Option, none, some, List, [], ◌∷◌, arith, ok, err,
}
use careeria.Base.Text.{Text}
use careeria.Domain.{Time, Uuid}
use careeria.Identity.EmailChallenge.{
  EmailVerificationChallenge, new, ensure_attempt_allowed, record_failed_attempt, consume, revoke,
}

pub data Call : Type 0 where
  fails revokes : Call
  consumes : Option Text → Call

-- One call: the challenge that it leaves, and whether it checked a guess, right or wrong.
pub perform : EmailVerificationChallenge → Call → Time → EmailVerificationChallenge × ℕ
unfolding record_failed_attempt consume
perform c fails now =
    let (c', r) = record_failed_attempt c now in elim r [ ok _ ↦ (c', 1) | err _ ↦ (c', 0) ]
perform c (consumes ip) now =
    let (c', e) = consume c ip now in elim e [ none ↦ (c', 1) | some _ ↦ (c', 0) ]
perform c revokes now = ((revoke c now).0, 0)

-- Calls in a row, with the number of guesses checked.
pub run : EmailVerificationChallenge → List (Call × Time) → EmailVerificationChallenge × ℕ
unfolding perform
run c [] = (c, 0)
run c ((call, now) ∷ calls) =
    let (c', n) = perform c call now in let (c'', m) = run c' calls in (c'', n + m)

-- What every call keeps, with the guesses that it counts.
pub Counted : EmailVerificationChallenge → ℕ → EmailVerificationChallenge → Type 0
Counted c n c' =
    (c'.attempts ≡ c.attempts + n)
    × (c'.max_attempts ≡ c.max_attempts)
    × (c.attempts ≤ c.max_attempts → c'.attempts ≤ c'.max_attempts)

perform-Counted :
    (c : EmailVerificationChallenge) (call : Call) (now : Time)
    → c.max_attempts < 2 ^ 63
    → Counted c (perform c call now).1 (perform c call now).0
unfolding perform record_failed_attempt consume revoke ensure_attempt_allowed Counted
perform-Counted c fails now h = ground arith
perform-Counted c (consumes ip) now h = ground arith
perform-Counted c revokes now h = ground arith

run-Counted :
    (c : EmailVerificationChallenge) (calls : List (Call × Time))
    → c.max_attempts < 2 ^ 63
    → Counted c (run c calls).1 (run c calls).0
unfolding run Counted
run-Counted c [] h = ground arith
run-Counted c ((call, now) ∷ calls) h =
    let first = perform-Counted c call now h in
    ground (arith, first, run-Counted (perform c call now).0 calls)

-- However the calls on a new challenge are ordered, the guesses that it lets through are at most
-- its bound, which fits an int, and its counter of attempts is their number.
pub new-run-attempts :
    (id email_id : Uuid) (token_hash : Text) (max_attempts : ℕ) (expires_at : Time)
    (ip : Option Text) (now : Time) (c : EmailVerificationChallenge) (calls : List (Call × Time))
    → max_attempts < 2 ^ 63
    → new id email_id token_hash max_attempts expires_at ip now ≡ ok c
    → let (c', guesses) = run c calls in (guesses ≤ max_attempts) × (c'.attempts ≡ guesses)
unfolding new Counted
new-run-attempts id email_id token_hash max_attempts expires_at ip now c calls bound made =
    let zero_attempts : c.attempts ≡ 0 = ground arith in
    let its_bound : c.max_attempts ≡ max_attempts = ground arith in
    let counted = run-Counted c calls (omega (arith, its_bound)) in
    omega (arith, zero_attempts, its_bound, counted.0, counted.1, counted.2)

perform-settled :
    (c : EmailVerificationChallenge) (call : Call) (now : Time)
    → (c.consumed_at ≢ none) ⊎ (c.revoked_at ≢ none)
    → perform c call now ≡ (c, 0)
unfolding perform record_failed_attempt consume revoke ensure_attempt_allowed
perform-settled c fails now h = ground arith
perform-settled c (consumes ip) now h = ground arith
perform-settled c revokes now h = ground arith

-- A consumed or revoked challenge keeps every field through all further calls, and lets no guess
-- through.
settled_absorbs :
    (c : EmailVerificationChallenge) (calls : List (Call × Time))
    → (c.consumed_at ≢ none) ⊎ (c.revoked_at ≢ none)
    → run c calls ≡ (c, 0)
unfolding run
settled_absorbs c [] h = refl
settled_absorbs c ((call, now) ∷ calls) h =
    rw (perform-settled c call now h, settled_absorbs c calls h) refl
