-- ===== src/Identity/EmailChallenge/Tests.antt =====
-- A challenge of three attempts: two wrong guesses and a right one.
use careeria.Base.{◌≡◌, ◌≤◌, refl, none, List, [], ◌∷◌, arith, ok}
use careeria.Base.Text.{codes}
use careeria.Domain.{Time}
use careeria.Identity.EmailChallenge.{EmailVerificationChallenge, new}
use careeria.Identity.EmailChallenge.Attempts.{Call, fails, consumes, run, new-run-attempts}

abbrev challenge : EmailVerificationChallenge
challenge = record {
  id = 1;
  email_id = 2;
  token_hash = codes "h";
  attempts = 0;
  max_attempts = 3;
  requested_from_ip = none;
  consumed_from_ip = none;
  created_at = 100;
  expires_at = 1000;
  last_attempt_at = none;
  consumed_at = none;
  revoked_at = none;
}

abbrev guesses : List (Call × Time)
guesses = (fails, 200) ∷ (fails, 300) ∷ (consumes none, 400) ∷ (fails, 500) ∷ []

challenge_made : new 1 2 (codes "h") 3 1000 none 100 ≡ ok challenge
unfolding new
challenge_made = refl

new-run-attempts_example :
    ((run challenge guesses).1 ≤ 3)
    × ((run challenge guesses).0.attempts ≡ (run challenge guesses).1)
new-run-attempts_example =
    new-run-attempts 1 2 (codes "h") 3 1000 none 100 challenge guesses (omega arith) challenge_made
