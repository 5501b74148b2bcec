-- ===== src/Packages/Retry/Loop/Success.antt =====
-- When `Do` succeeds: packages/go/retry/retry.go.
use careeria.Base.{
  ltb, ltb→lt, ltb→le, Option-cases, ◌≡◌, refl, ℕ, ◌≤◌, inl, inr, Bool, true, false, Option, none,
  some, leb, arith, subst, sym, Bool-cases, ◌==◌,
}
use careeria.Base.Guards.{branched, passed}
use careeria.Packages.Retry.Predicates.{on_error}
use careeria.Packages.Retry.Loop.{
  Config, Context, Report, normal_attempts, normalize_config, should_retry, interruption,
  do_operation, delay_after,
}
use careeria.Packages.Retry.Loop.Attempts.{IsAccount, do_operation-Returns}

not_both : {b : Bool} → b ≡ true → b ≡ false → ⊥
not_both h k = cc (h, k)

module _ {ℓ} {T E : Type ℓ} (is : E → E → Bool) (ctx : Context E) (operation : ℕ → T × Option E)
    (cfg : Config T E) where
  never_interrupted :
      ((k : ℕ) → ctx.err_after k ≡ none)
      → ((k d : ℕ) → ctx.wait k d ≡ none)
      → (k : ℕ) → interruption is ctx operation (normalize_config cfg) k ≡ none
  unfolding interruption
  never_interrupted calm patient k =
      passed (λ o. o ≡ none) (ctx.err_after k) _ _ (calm k)
        (branched (λ o. o ≡ none) (delay_after is ctx operation (normalize_config cfg) k == 0) _ _
          (λ h. refl) (λ h. patient k _))

  success_not_wanted :
      (k : ℕ)
      → cfg.retry_if ≡ none
      → (operation k).1 ≡ none
      → should_retry (normalize_config cfg) k (operation k).0 (operation k).1 ≡ false
  unfolding should_retry normalize_config on_error
  success_not_wanted k plain good =
      branched (λ b. b ≡ false) (leb (normal_attempts cfg.max_attempts) k) _ _ (λ h. refl)
        (λ h. rw (plain, good) refl)

  failure_last :
      (k : ℕ) (e : E)
      → cfg.retry_if ≡ none
      → (operation k).1 ≡ some e
      → should_retry (normalize_config cfg) k (operation k).0 (operation k).1 ≡ false
      → normal_attempts cfg.max_attempts ≤ k
  unfolding should_retry normalize_config on_error
  failure_last k e plain bad h = elim (Bool-cases (leb (normal_attempts cfg.max_attempts) k)) [
    | inl reached ↦ ground (arith, reached)
    | inr room ↦ absurd (not_both (wanted room) h)
  ]
    where
      wanted :
          leb (normal_attempts cfg.max_attempts) k ≡ false
          → should_retry (normalize_config cfg) k (operation k).0 (operation k).1 ≡ true
      wanted room = rw (room, plain, bad) refl

  account_early :
      (n : ℕ) (r : Report T E)
      → cfg.retry_if ≡ none
      → 1 ≤ n
      → (operation n).1 ≡ none
      → IsAccount is ctx operation (normalize_config cfg) 1 r
      → r.attempts ≤ n
  account_early n r plain first good a = elim (Bool-cases (ltb n r.attempts)) [
    | inl past_it ↦ absurd (
        not_both (a.earlier n first (ltb→lt n r.attempts past_it)).0
          (success_not_wanted n plain good))
    | inr in_time ↦ ltb→le n r.attempts in_time
  ]

  account_clean :
      (n : ℕ) (r : Report T E)
      → ((k : ℕ) → ctx.err_after k ≡ none)
      → ((k d : ℕ) → ctx.wait k d ≡ none)
      → cfg.retry_if ≡ none
      → n ≤ normal_attempts cfg.max_attempts
      → (operation n).1 ≡ none
      → r.attempts ≤ n
      → IsAccount is ctx operation (normalize_config cfg) 1 r
      → r.error ≡ none
  account_clean n r calm patient plain in_time good early a = elim a.ended [
    | inr (e, stops, joined_error) ↦
        absurd (clash (never_interrupted calm patient r.attempts) stops)
    | inl (refused, kept_error) ↦ elim (Option-cases (operation r.attempts).1) [
      | inl clean ↦ rw (kept_error, clean) refl
      | inr (e, bad) ↦
          let last = failure_last r.attempts e plain bad refused in
          let here : r.attempts ≡ n = omega (arith, last, early, in_time) in
          absurd (clash (subst (λ k. (operation k).1 ≡ none) (sym here) good) bad)
    ]
  ]
    where
      clash : {o : Option E} {e : E} → o ≡ none → o ≡ some e → ⊥
      clash p q = cc (p, q)

-- An operation that succeeds in time is waited for: where retries are for errors and nothing
-- interrupts, `Do` reports no error as soon as one attempt within `MaxAttempts` has none.
pub do_operation_succeeds {ℓ} :
    {T E : Type ℓ} (is : E → E → Bool) (zero_value : T) (ctx : Context E) (cfg : Config T E)
    (operation : ℕ → T × Option E) (n : ℕ)
    → ctx.err_at_start ≡ none
    → ((k : ℕ) → ctx.err_after k ≡ none)
    → ((k d : ℕ) → ctx.wait k d ≡ none)
    → cfg.retry_if ≡ none
    → 1 ≤ n
    → n ≤ normal_attempts cfg.max_attempts
    → (operation n).1 ≡ none
    → (r : Report T E) × (do_operation is zero_value (some ctx) cfg (some operation) ≡ some r)
      × (r.error ≡ none)
      × (r.attempts ≤ n)
do_operation_succeeds is zero_value ctx cfg operation n live calm patient plain first in_time good =
    let (r, made, a) = do_operation-Returns is zero_value ctx cfg operation live in
    let early = account_early is ctx operation cfg n r plain first good a in
    (r, made, account_clean is ctx operation cfg n r calm patient plain in_time good early a, early)
