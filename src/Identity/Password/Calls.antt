-- ===== src/Identity/Password/Calls.antt =====
-- Calls of the methods of a password: services/identity/internal/domain/password/password.go.
use careeria.Base.{ℕ, ◌+◌, Bool, true, false, Option, List, [], ◌∷◌, if◌then◌else◌, Result, ok, err}
use careeria.Base.Text.{Text}
use careeria.Domain.{Time}
use careeria.Identity.Password.Attempts.{Error, FailurePolicy}
use careeria.Identity.Password.{
  Password, change, require_change, mark_compromised, record_failed_attempt,
  record_successful_authentication, unlock,
}

pub data Call : Type 0 where
  fails : FailurePolicy → Call
  changes : Text → Bool → Option Time → Call
  succeeds requires_change is_compromised unlocks : Call

unfoldable pub perform : Password → Call → Time → Password
perform p (fails policy) now = (record_failed_attempt p policy now).0
perform p (changes hash must_change expires_at) now = (change p hash must_change expires_at now).0
perform p succeeds now = (record_successful_authentication p now).0
perform p requires_change now = (require_change p now).0
perform p is_compromised now = (mark_compromised p now).0
perform p unlocks now = (unlock p now).0

unfoldable pub run : Password → List (Call × Time) → Password
unfolding perform
run p [] = p
run p ((c, now) ∷ cs) = run (perform p c now) cs

abbrev pub is_ok : Result Error Bool → Bool
is_ok (ok b) = true
is_ok (err e) = false

-- Wrong guesses at some times, with the number of those that were looked at.
unfoldable pub guess : Password → FailurePolicy → List Time → Password × ℕ
guess p policy [] = (p, 0)
guess p policy (now ∷ times) =
    let (q, r) = record_failed_attempt p policy now in
    let (last, n) = guess q policy times in (last, if is_ok r then n + 1 else n)
