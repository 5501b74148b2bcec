-- ===== src/Packages/Outbox/Publishing.antt =====
-- What the worker of packages/go/outbox/worker.go marks as published.
use careeria.Base.{
  ℕ, zero, suc, ◌≡◌, ◌⊎◌, refl, Bool, true, ◌||◌, Option, none, some, List, [], ◌∷◌, is_empty,
  Result, ok, err, inl, inr, All, All-append, All-mono, if◌then◌else◌,
}
use careeria.Base.Guards.{guarded, branched}
use careeria.Packages.Outbox.{
  Config, Entry, claimed, sent, failure_marked, publication_marked, waited, Log, World, Round,
  returned, finished, failure_result, publish_result, publish_one, publish_each, published_result,
  conclude, process_claimed, process, start,
}

module _ {M E : Type 0} where
  -- The log has a call that published the entry.
  abbrev pub IsPublished : Log M E → Entry M → Type 0
  IsPublished [] e = ⊥
  IsPublished (sent e' none ∷ log) e = (e' ≡ e) ⊎ IsPublished log e
  IsPublished (sent e' (some f) ∷ log) e = IsPublished log e
  IsPublished (claimed r ∷ log) e = IsPublished log e
  IsPublished (failure_marked e' f r ∷ log) e = IsPublished log e
  IsPublished (publication_marked es r ∷ log) e = IsPublished log e
  IsPublished (waited b ∷ log) e = IsPublished log e

  -- Every entry that was given to `MarkPublished` had been published before.
  abbrev pub IsJustified : Log M E → Type 0
  IsJustified [] = Unit
  IsJustified (publication_marked es r ∷ log) = All (IsPublished log) es × IsJustified log
  IsJustified (claimed r ∷ log) = IsJustified log
  IsJustified (sent e r ∷ log) = IsJustified log
  IsJustified (failure_marked e f r ∷ log) = IsJustified log
  IsJustified (waited b ∷ log) = IsJustified log

module _ {M E : Type 0} (w : World M E) (c : Config) where
  -- The log and the entries that a round holds as published.
  abbrev RoundIsJustified : Round M E → Type 0
  RoundIsJustified (returned log) = IsJustified log
  RoundIsJustified (finished log published finalized) =
      IsJustified log × All (IsPublished log) published

  failure_result-IsJustified :
      (e : Entry M) (f : E) (log : Log M E) (published : List (Entry M)) (finalized : Bool)
      (r : Option E)
      → IsJustified log
      → All (IsPublished log) published
      → RoundIsJustified (failure_result w c e f log published finalized r)
  failure_result-IsJustified e f log published finalized none j p = (j, p)
  failure_result-IsJustified e f log published finalized (some m) j p =
      guarded RoundIsJustified (w.cancelled (failure_marked e f (some m) ∷ log)) _ _ j
        (λ on. (j, p))

  publish_result-IsJustified :
      (e : Entry M) (log : Log M E) (published : List (Entry M)) (finalized : Bool) (r : Option E)
      → IsJustified log
      → All (IsPublished log) published
      → RoundIsJustified (publish_result w c e log published finalized r)
  publish_result-IsJustified e log published finalized none j p = (
    j,
    All-append (IsPublished (sent e none ∷ log)) published (e ∷ [])
        (All-mono (IsPublished log) (IsPublished (sent e none ∷ log)) published (λ x h. inr h) p)
        (inl refl, tt),
  )
  publish_result-IsJustified e log published finalized (some f) j p =
      let log1 = sent e (some f) ∷ log in
      guarded RoundIsJustified (w.cancelled log1) _ _ j
        (λ on. failure_result-IsJustified e f log1 published finalized (w.mark_failed log1 e f) j p)

  publish_each-IsJustified :
      (entries : List (Entry M)) (log : Log M E) (published : List (Entry M)) (finalized : Bool)
      → IsJustified log
      → All (IsPublished log) published
      → RoundIsJustified (publish_each w c entries log published finalized)
  unfolding publish_each
  publish_each-IsJustified [] log published finalized j p = (j, p)
  publish_each-IsJustified (e ∷ es) log published finalized j p =
      go (publish_one w c e log published finalized)
        (guarded RoundIsJustified (w.cancelled log) _ _ j (λ on.
          publish_result-IsJustified e log published finalized (w.publish log e.message) j p))
        (publish_each-IsJustified es)
    where
      go :
          (r : Round M E)
          → RoundIsJustified r
          → ((log : Log M E) (published : List (Entry M)) (finalized : Bool)
              → IsJustified log
              → All (IsPublished log) published
              → RoundIsJustified (publish_each w c es log published finalized))
          → RoundIsJustified (elim r [
            | returned log1 ↦ returned log1
            | finished log1 published1 finalized1 ↦ publish_each w c es log1 published1 finalized1
          ])
      go (returned log1) h rest = h
      go (finished log1 published1 finalized1) h rest = rest log1 published1 finalized1 h.0 h.1

  conclude-IsJustified :
      (entries : List (Entry M)) (r : Round M E)
      → RoundIsJustified r
      → IsJustified (conclude w c entries r).0
  unfolding conclude
  conclude-IsJustified entries (returned log) h = h
  conclude-IsJustified entries (finished log published finalized) h =
      guarded {R = Log M E × Bool} (λ r. IsJustified r.0) (is_empty published) _ _ h.0
        (λ some_left. go (w.mark_published log published))
    where
      go : (r : Option E) → IsJustified (published_result w c entries log published finalized r).0
      go none = (h.1, h.0)
      go (some e) = (h.1, h.0)

  process-IsJustified : (log : Log M E) → IsJustified log → IsJustified (process w c log).0
  unfolding process
  process-IsJustified log j = go (w.claim_pending log c.batch_size)
    where
      go : (r : Result E (List (Entry M))) → IsJustified (process_claimed w c (claimed r ∷ log) r).0
      go (err e) = j
      go (ok entries) =
          guarded {R = Log M E × Bool} (λ r. IsJustified r.0) (is_empty entries) _ _ j
            (λ some_left.
              conclude-IsJustified entries
                (publish_each w c entries (claimed (ok entries) ∷ log) [] true)
                (publish_each-IsJustified entries (claimed (ok entries) ∷ log) [] true j tt))

  start-IsJustified :
      (rounds : ℕ) (log : Log M E) → IsJustified log → IsJustified (start w c rounds log).0
  unfolding start
  start-IsJustified zero log j = j
  start-IsJustified (suc rounds) log j =
      let P = λ (r : Log M E × Bool). IsJustified r.0 in
      let log1 = (process w c log).0 in
      let full = (process w c log).1 in
      let j1 = process-IsJustified log j in
      let next : IsJustified (if full then log1 else waited true ∷ log1) =
        branched {R = Log M E} IsJustified full log1 (waited true ∷ log1) (λ h. j1) (λ h. j1) in
      let rest = start-IsJustified rounds (if full then log1 else waited true ∷ log1) next in
      guarded P (w.cancelled log || w.draining log) _ _ j (λ on.
        guarded P (w.cancelled log1 || w.draining log1) _ _ j1 (λ on'.
          guarded P full _ _ rest (λ partial. guarded P (w.wakes log1) _ _ rest (λ stopped. j1))))

  -- However the publisher, the repository, the context and the channels answer, every entry that
  -- the worker, after any number of rounds, has given to `MarkPublished` had been published by an
  -- earlier call that reported no error.
  pub new-start-IsJustified : (rounds : ℕ) → IsJustified (start w c rounds []).0
  new-start-IsJustified rounds = start-IsJustified rounds [] tt
