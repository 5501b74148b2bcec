-- ===== src/Identity/Password/Tests.antt =====
-- A password under a policy of two attempts, which is guessed, compromised and changed.
use careeria.Base.{◌≡◌, ◌≤◌, ◌+◌, refl, true, false, none, some, List, [], ◌∷◌, is_some, arith}
use careeria.Base.Int.{pos}
use careeria.Base.Text.{codes}
use careeria.Domain.{Time}
use careeria.Identity.Password.Attempts.{FailurePolicy, reset}
use careeria.Identity.Password.{Password, ensure_authentication_allowed, change}
use careeria.Identity.Password.Calls.{Call, unlocks, succeeds, run, guess}
use careeria.Identity.Password.Lockout.{guess-le}
use careeria.Identity.Password.Compromise.{compromised_until_changed}

abbrev two_attempts : FailurePolicy
two_attempts = record { max_attempts = pos 2; lock_duration = pos 900 }

abbrev fresh_password : Password
fresh_password = record {
  identity_id = 1;
  credential = record {
    hash = codes "argon2id";
    must_change = false;
    password_updated_at = 100;
    expires_at = none;
    compromised_at = none;
    created_at = 100;
    updated_at = 100;
  };
  auth_state = record {
    failed_attempts = 0;
    last_failed_at = none;
    locked_until = none;
    lock_reason = none;
    updated_at = 100;
  };
}

abbrev compromised_password : Password
compromised_password = record {
  identity_id = 1;
  credential = record {
    hash = codes "argon2id";
    must_change = true;
    password_updated_at = 100;
    expires_at = none;
    compromised_at = some 200;
    created_at = 100;
    updated_at = 200;
  };
  auth_state = fresh_password.auth_state;
}

abbrev guess_times : List Time
guess_times = 200 ∷ 300 ∷ 400 ∷ 500 ∷ []

abbrev attempts_to_open : List (Call × Time)
attempts_to_open = (unlocks, 300) ∷ (succeeds, 400) ∷ []

abbrev changed_password : Password
changed_password = record {
  identity_id = 1;
  credential = record {
    hash = codes "other";
    must_change = false;
    password_updated_at = 300;
    expires_at = some 9000;
    compromised_at = none;
    created_at = 100;
    updated_at = 300;
  };
  auth_state = record {
    failed_attempts = 0;
    last_failed_at = none;
    locked_until = none;
    lock_reason = none;
    updated_at = 300;
  };
}

password_changed :
    change compromised_password (codes "other") false (some 9000) 300 ≡ (changed_password, none)
unfolding change reset
password_changed = refl

guess-le_example :
    (guess fresh_password two_attempts guess_times).1 + fresh_password.auth_state.failed_attempts
    ≤ 2
guess-le_example =
    guess-le fresh_password two_attempts 2 900 150 guess_times refl (omega arith) refl refl
      (omega arith) (omega arith) (omega arith)

compromised_until_changed_example :
    is_some (ensure_authentication_allowed (run compromised_password attempts_to_open) 500) ≡ true
compromised_until_changed_example =
    compromised_until_changed compromised_password attempts_to_open 500 refl (tt, (tt, tt))
