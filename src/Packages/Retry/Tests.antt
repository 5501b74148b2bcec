-- ===== src/Packages/Retry/Tests.antt =====
-- Delays from a base of 100 up to 1000, and an operation that succeeds at its third attempt.
use careeria.Base.{◌≡◌, refl, ℕ, ◌≤◌, ◌<◌, true, Option, none, some, arith, ◌==◌, if◌then◌else◌}
use careeria.Base.Int.{pos}
use careeria.Packages.Retry.Backoff.{positive_duration, exponential}
use careeria.Packages.Retry.Backoff.Growth.{doubled, exponential-doubled, exponential_drops}
use careeria.Packages.Retry.Loop.{Config, Context, Report, do_operation}
use careeria.Packages.Retry.Loop.Success.{do_operation_succeeds}

exponential-doubled_example : exponential (pos 100) (pos 1000) 4 ≡ pos (doubled 100 1000 4)
exponential-doubled_example = exponential-doubled 100 1000 4 (omega arith) (omega arith)

doubled_test : doubled 100 1000 4 ≡ 800
doubled_test = refl

exponential_drops_example :
    (exponential (pos 100) (pos 1000) 63 ≡ pos 100)
    × (positive_duration (exponential (pos 100) (pos 1000) 63)
        < positive_duration (exponential (pos 100) (pos 1000) 62))
exponential_drops_example =
    exponential_drops 100 1000 63 (omega arith) (omega arith) (omega arith) (omega arith)

abbrev calm : Context ℕ
calm = record { err_at_start = none; err_after = λ k. none; wait = λ k d. none }

abbrev config : Config ℕ ℕ
config = record {
  max_attempts = pos 5;
  backoff = some (exponential (pos 100) (pos 1000));
  retry_if = none;
  has_on_retry = true;
}

-- The third attempt is the first without an error.
abbrev third_time : ℕ → ℕ × Option ℕ
third_time k = (k, if k == 3 then none else some 7)

do_operation_succeeds_example :
    (r : Report ℕ ℕ) × (do_operation ◌==◌ 0 (some calm) config (some third_time) ≡ some r)
    × (r.error ≡ none)
    × (r.attempts ≤ 3)
do_operation_succeeds_example =
    do_operation_succeeds ◌==◌ 0 calm config third_time 3 refl (λ k. refl) (λ k d. refl) refl
      (omega arith) (omega arith) refl
