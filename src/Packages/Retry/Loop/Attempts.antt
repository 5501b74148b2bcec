-- ===== src/Packages/Retry/Loop/Attempts.antt =====
-- What `Do` has done when it returns: packages/go/retry/retry.go.
use careeria.Base.{
  ==_iff, ◌≡◌, refl, ℕ, suc, zero, ◌+◌, ◌≤◌, ◌<◌, ◌⊎◌, inl, inr, Bool, true, false, not, Option,
  none, some, List, arith, subst, sym, Bool-cases, ◌==◌,
}
use careeria.Base.Guards.{branched, examined, passed}
use careeria.Base.Int.{ℤ, pos, negsuc}
use careeria.Packages.Retry.Loop.{
  Config, Settings, Event, Context, Report, failure_of, join_context_error, normal_attempts,
  normalize_config, should_retry, with_event, event_after, interruption, do_from, do_operation,
}

module _ {ℓ} {T E : Type ℓ} (is : E → E → Bool) (ctx : Context E) (operation : ℕ → T × Option E)
    (cfg : Settings T E) where
  -- A report of the loop from an attempt on.
  pub record IsAccount (first : ℕ) (r : Report T E) : Type ℓ where
    pub from : first ≤ r.attempts
    pub within : r.attempts ≤ cfg.max_attempts
    pub last : r.result ≡ (operation r.attempts).0
    pub earlier :
        (k : ℕ)
        → first ≤ k
        → k < r.attempts
        → (should_retry cfg k (operation k).0 (operation k).1 ≡ true)
          × (interruption is ctx operation cfg k ≡ none)
    pub ended :
        ((should_retry cfg r.attempts (operation r.attempts).0 (operation r.attempts).1 ≡ false)
          × (r.error ≡ failure_of (operation r.attempts).1))
        ⊎ ((e : E) × (interruption is ctx operation cfg r.attempts ≡ some e)
            × (r.error ≡ some (join_context_error is (operation r.attempts).1 e)))

  abbrev Accounts : ℕ → Option (Report T E) → Type ℓ
  Accounts first o = (r : Report T E) × (o ≡ some r) × IsAccount first r

  wanted_below :
      (n : ℕ) → should_retry cfg n (operation n).0 (operation n).1 ≡ true → n + 1 ≤ cfg.max_attempts
  unfolding should_retry
  wanted_below n h = ground (arith, h)

  -- An account of the loop from the next attempt on, once the event of this one is in front.
  IsAccount-event :
      (first : ℕ) (s : Report T E) (events : List (Event T E))
      → should_retry cfg first (operation first).0 (operation first).1 ≡ true
      → interruption is ctx operation cfg first ≡ none
      → IsAccount (first + 1) s
      → IsAccount first (record s { events = events })
  IsAccount-event first s events wanted goes_on a = record {
    from = omega (arith, a.from);
    within = a.within;
    last = a.last;
    earlier = λ k low high. elim (Bool-cases (k == first)) [
      | inl here ↦ subst Passed (sym ((==_iff k first).0 here)) (wanted, goes_on)
      | inr later ↦ a.earlier k (ground (arith, low, later)) high
    ];
    ended = a.ended;
  }
    where
      Passed : ℕ → Type ℓ
      Passed k =
          (should_retry cfg k (operation k).0 (operation k).1 ≡ true)
          × (interruption is ctx operation cfg k ≡ none)

  -- A report of the loop from the next attempt on, with the event of this one in front.
  logged :
      (first : ℕ) (o : Option (Report T E))
      → should_retry cfg first (operation first).0 (operation first).1 ≡ true
      → interruption is ctx operation cfg first ≡ none
      → Accounts (first + 1) o
      → Accounts first (with_event cfg.has_on_retry (event_after is ctx operation cfg first) o)
  logged first none wanted goes_on (r, made, a) = absurd (cc made)
  logged first (some s) wanted goes_on (r, made, a) =
      let same : s ≡ r = cc made in
      (
        _,
        refl,
        IsAccount-event first s _ wanted goes_on (subst (IsAccount (first + 1)) (sym same) a),
      )

  do_from-Accounts :
      (fuel first : ℕ)
      → first ≤ cfg.max_attempts
      → cfg.max_attempts < fuel + first
      → Accounts first (do_from is ctx operation cfg fuel first)
  unfolding do_from
  do_from-Accounts zero first below enough = absurd (omega (arith, below, enough))
  do_from-Accounts (suc fuel) first below enough =
      branched (Accounts first)
        (not (should_retry cfg first (operation first).0 (operation first).1)) _ _
        (λ settled. (
          _,
          refl,
          record {
            from = omega arith;
            within = below;
            last = refl;
            earlier = λ k low high. absurd (omega (arith, low, high));
            ended = inl (ground (arith, settled), refl);
          },
        ))
        (λ wanted.
          examined
            (λ o.
              Accounts first
                (with_event cfg.has_on_retry (event_after is ctx operation cfg first) o))
            (interruption is ctx operation cfg first) _ _
            (λ e stops. (
              _,
              refl,
              record {
                from = omega arith;
                within = below;
                last = refl;
                earlier = λ k low high. absurd (omega (arith, low, high));
                ended = inr (e, stops, refl);
              },
            ))
            (λ goes_on.
              logged first (do_from is ctx operation cfg fuel (first + 1)) (ground (arith, wanted))
                goes_on
                (do_from-Accounts fuel (first + 1) (wanted_below first (ground (arith, wanted)))
                  (omega (arith, enough)))))

one_attempt {ℓ} : {T E : Type ℓ} (cfg : Config T E) → 1 ≤ (normalize_config cfg).max_attempts
unfolding normalize_config
one_attempt cfg = positive cfg.max_attempts
  where
    positive : (n : ℤ) → 1 ≤ normal_attempts n
    positive (pos n) = ground arith
    positive (negsuc n) = ground arith

pub do_operation-Returns {ℓ} :
    {T E : Type ℓ} (is : E → E → Bool) (zero_value : T) (ctx : Context E) (cfg : Config T E)
    (operation : ℕ → T × Option E)
    → ctx.err_at_start ≡ none
    → (r : Report T E) × (do_operation is zero_value (some ctx) cfg (some operation) ≡ some r)
      × IsAccount is ctx operation (normalize_config cfg) 1 r
unfolding do_operation
do_operation-Returns is zero_value ctx cfg operation live =
    passed (λ o. (r : _) × (o ≡ some r) × IsAccount is ctx operation (normalize_config cfg) 1 r)
      ctx.err_at_start _ _ live
      (do_from-Accounts is ctx operation (normalize_config cfg) (normalize_config cfg).max_attempts
        1 (one_attempt cfg) (omega arith))
