-- ===== src/Packages/Retry/Loop.antt =====
-- packages/go/retry/retry.go, with the errors of errors.go. What is not in the package is a
-- parameter: the operation gives the result and the error of each attempt, `Context` gives what
-- `ctx.Err()` and the timer of `wait` report, and `is` stands for `errors.Is`. The callback
-- `OnRetry` is the list of the events that it gets.
pub mod Attempts
pub mod Success
use careeria.Base.{
  ℕ, suc, zero, ◌+◌, ◌≤◌, Bool, true, false, not, ◌&&◌, Option, none, some, List, [], ◌∷◌,
  if◌then◌else◌, is_some, leb, ◌==◌,
}
use careeria.Base.Int.{ℤ, pos, negsuc}
use careeria.Packages.Retry.Backoff.{positive_duration, no_backoff}
use careeria.Packages.Retry.Predicates.{on_error}

pub data Failure {ℓ} (E : Type ℓ) : Type ℓ where
  nil_context nil_operation : Failure E
  failed : E → Failure E
  joined : E → E → Failure E

pub record Config {ℓ} (T E : Type ℓ) : Type ℓ where
  pub max_attempts : ℤ
  pub backoff : Option (ℕ → ℤ)
  pub retry_if : Option (T → Option E → Bool)
  pub has_on_retry : Bool

-- What `normalizeConfig` returns: no field is nil.
pub record Settings {ℓ} (T E : Type ℓ) : Type ℓ where
  pub max_attempts : ℕ
  pub backoff : ℕ → ℤ
  pub retry_if : T → Option E → Bool
  pub has_on_retry : Bool

pub record Event {ℓ} (T E : Type ℓ) : Type ℓ where
  pub attempt : ℕ
  pub next_attempt : ℕ
  pub result : T
  pub err : Option E
  pub delay : ℕ

pub record Context {ℓ} (E : Type ℓ) : Type ℓ where
  pub err_at_start : Option E
  pub err_after : ℕ → Option E
  pub wait : ℕ → ℕ → Option E

-- What `Do` returns, with the number of the calls of the operation.
pub record Report {ℓ} (T E : Type ℓ) : Type ℓ where
  pub result : T
  pub error : Option (Failure E)
  pub attempts : ℕ
  pub events : List (Event T E)

abbrev pub normal_attempts : ℤ → ℕ
normal_attempts (pos n) = if leb n 0 then 1 else n
normal_attempts (negsuc n) = 1

module _ {ℓ} {E : Type ℓ} where
  abbrev pub failure_of : Option E → Option (Failure E)
  failure_of none = none
  failure_of (some e) = some (failed e)

  -- `joinContextError`, for an error of the context that is not nil.
  unfoldable pub join_context_error : (E → E → Bool) → Option E → E → Failure E
  join_context_error is none ctx_err = failed ctx_err
  join_context_error is (some e) ctx_err = if is e ctx_err then failed ctx_err else joined e ctx_err

module _ {ℓ} {T E : Type ℓ} where
  unfoldable pub normalize_config : Config T E → Settings T E
  normalize_config cfg = record {
    max_attempts = normal_attempts cfg.max_attempts;
    backoff = elim cfg.backoff [ none ↦ no_backoff | some backoff ↦ backoff ];
    retry_if = elim cfg.retry_if [ none ↦ on_error | some retry_if ↦ retry_if ];
    has_on_retry = cfg.has_on_retry;
  }

  unfoldable pub should_retry : Settings T E → ℕ → T → Option E → Bool
  should_retry cfg attempt result err =
      if leb cfg.max_attempts attempt then false else cfg.retry_if result err

  -- What `Do` returns after an attempt, before the events of earlier attempts are put in front.
  abbrev pub returned : ℕ → T → Option (Failure E) → Option (Report T E)
  returned attempt result error =
      some (record { result = result; error = error; attempts = attempt; events = [] })

  -- `OnRetry` is called, where it is set.
  abbrev pub with_event : Bool → Event T E → Option (Report T E) → Option (Report T E)
  with_event called event none = none
  with_event called event (some r) =
      some (record r { events = if called then event ∷ r.events else r.events })

module _ {ℓ} {T E : Type ℓ} (is : E → E → Bool) (ctx : Context E) (operation : ℕ → T × Option E)
    (cfg : Settings T E) where
  abbrev pub delay_after : ℕ → ℕ
  delay_after attempt = positive_duration (cfg.backoff attempt)

  abbrev pub event_after : ℕ → Event T E
  event_after attempt = record {
    attempt = attempt;
    next_attempt = attempt + 1;
    result = (operation attempt).0;
    err = (operation attempt).1;
    delay = delay_after attempt;
  }

  -- What stops the loop between an attempt and the next: `ctx.Err()`, then `wait`.
  unfoldable pub interruption : ℕ → Option E
  interruption attempt = elim (ctx.err_after attempt) [
    | some ctx_err ↦ some ctx_err
    | none ↦ if delay_after attempt == 0 then none else ctx.wait attempt (delay_after attempt)
  ]

  -- The loop of `Do`, from an attempt on.
  unfoldable pub do_from : ℕ → ℕ → Option (Report T E)
  unfolding interruption should_retry
  do_from zero attempt = none
  do_from (suc fuel) attempt =
      let rest = do_from fuel (attempt + 1) in
      let (result, err) = operation attempt in
      if not (should_retry cfg attempt result err)
      then returned attempt result (failure_of err)
      else with_event cfg.has_on_retry (event_after attempt) (elim (interruption attempt) [
        | some e ↦ returned attempt result (some (join_context_error is err e))
        | none ↦ rest
      ])

module _ {ℓ} {T E : Type ℓ} (is : E → E → Bool) (zero_value : T) where
  abbrev pub unstarted : Failure E → Report T E
  unstarted e = record { result = zero_value; error = some e; attempts = 0; events = [] }

  unfoldable pub do_operation :
      Option (Context E) → Config T E → Option (ℕ → T × Option E) → Option (Report T E)
  unfolding do_from normalize_config
  do_operation none cfg operation = some (unstarted nil_context)
  do_operation (some ctx) cfg none = some (unstarted nil_operation)
  do_operation (some ctx) cfg (some operation) = elim ctx.err_at_start [
    | some e ↦ some (unstarted (failed e))
    | none ↦
        let settings = normalize_config cfg in
        do_from is ctx operation settings settings.max_attempts 1
  ]
