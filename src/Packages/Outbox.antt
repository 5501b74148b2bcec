-- ===== src/Packages/Outbox.antt =====
-- packages/go/outbox: worker.go, contracts.go, config.go. The repository, the publisher, the
-- context and the channels are parameters, which may answer each call by all the calls before it;
-- the log has these calls with their answers, the last one first. The calls of the logger are
-- left out.
pub mod Publishing
pub mod Holding
pub mod Finalizing
mod Tests
use careeria.Base.{
  ℕ, zero, suc, Bool, true, false, ◌&&◌, ◌||◌, Option, none, some, List, [], ◌∷◌, ◌++◌, is_empty,
  length, Result, ok, err, if◌then◌else◌,
}
use careeria.Base.Int.{ℤ, pos, int_leb, int_equal}
use careeria.Base.Text.{Text}

pub data ConfigError : Type 0 where
  batch_size_not_positive poll_interval_not_positive publish_timeout_not_positive : ConfigError
  repository_required publisher_required logger_required : ConfigError

pub record Config : Type 0 where
  pub batch_size : ℤ
  pub poll_interval : ℤ
  pub publish_timeout : ℤ

unfoldable pub validate : Config → Option ConfigError
validate c =
    if int_leb c.batch_size (pos 0)
    then some batch_size_not_positive
    else if int_leb c.poll_interval (pos 0)
    then some poll_interval_not_positive
    else if int_leb c.publish_timeout (pos 0)
    then some publish_timeout_not_positive
    else none

-- `Worker`, without its channels and its `sync.Once`.
pub record Worker (R P L : Type 0) : Type 0 where
  pub cfg : Config
  pub repository : R
  pub publisher : P
  pub logger : L

unfoldable pub new :
    {R P L : Type 0} → Config → Option R → Option P → Option L → Result ConfigError (Worker R P L)
unfolding validate
new c repository publisher logger = elim (validate c) [
  | some e ↦ err e
  | none ↦ elim repository [
    | none ↦ err repository_required
    | some r ↦ elim publisher [
      | none ↦ err publisher_required
      | some p ↦ elim logger [
        | none ↦ err logger_required
        | some l ↦ ok (record { cfg = c; repository = r; publisher = p; logger = l })
      ]
    ]
  ]
]

pub record Entry (M : Type 0) : Type 0 where
  pub id : Text
  pub claim_token : Text
  pub message : M

-- A call, with what it was given and its answer.
pub data Event (M E : Type 0) : Type 0 where
  claimed : Result E (List (Entry M)) → Event M E
  sent : Entry M → Option E → Event M E
  failure_marked : Entry M → E → Option E → Event M E
  publication_marked : List (Entry M) → Option E → Event M E
  waited : Bool → Event M E

abbrev pub Log : Type 0 → Type 0 → Type 0
Log M E = List (Event M E)

pub record World (M E : Type 0) : Type 0 where
  -- `ctx.Err() != nil` and `isDraining()`.
  pub cancelled : Log M E → Bool
  pub draining : Log M E → Bool
  -- Whether the timer of `wait` fires first.
  pub wakes : Log M E → Bool
  pub claim_pending : Log M E → ℤ → Result E (List (Entry M))
  pub publish : Log M E → M → Option E
  pub mark_failed : Log M E → Entry M → E → Option E
  pub mark_published : Log M E → List (Entry M) → Option E

-- Where the loop of `process` over the entries ends: at a `return false`, or at its end with the
-- entries published and the flag.
pub data Round (M E : Type 0) : Type 0 where
  returned : Log M E → Round M E
  finished : Log M E → List (Entry M) → Bool → Round M E

module _ {M E : Type 0} (w : World M E) (c : Config) where
  -- One entry, from the answer of `MarkFailed` on.
  abbrev pub failure_result : Entry M → E → Log M E → List (Entry M) → Bool → Option E → Round M E
  failure_result entry e log published finalized none =
      finished (failure_marked entry e none ∷ log) published finalized
  failure_result entry e log published finalized (some m) =
      let log2 = failure_marked entry e (some m) ∷ log in
      if w.cancelled log2 then returned log2 else finished log2 published false

  -- One entry, from the answer of `Publish` on.
  abbrev pub publish_result : Entry M → Log M E → List (Entry M) → Bool → Option E → Round M E
  publish_result entry log published finalized none =
      finished (sent entry none ∷ log) (published ++ entry ∷ []) finalized
  publish_result entry log published finalized (some e) =
      let log1 = sent entry (some e) ∷ log in
      if w.cancelled log1
      then returned log1
      else failure_result entry e log1 published finalized (w.mark_failed log1 entry e)

  -- The body of the loop over the entries.
  unfoldable pub publish_one : Entry M → Log M E → List (Entry M) → Bool → Round M E
  publish_one entry log published finalized =
      if w.cancelled log
      then returned log
      else publish_result entry log published finalized (w.publish log entry.message)

  unfoldable pub publish_each : List (Entry M) → Log M E → List (Entry M) → Bool → Round M E
  unfolding publish_one
  publish_each [] log published finalized = finished log published finalized
  publish_each (entry ∷ entries) log published finalized =
      elim (publish_one entry log published finalized) [
        | returned log1 ↦ returned log1
        | finished log1 published1 finalized1 ↦ publish_each entries log1 published1 finalized1
      ]

  -- `finalized && len(entries) == w.cfg.BatchSize`
  abbrev pub is_full : List (Entry M) → Bool → Bool
  is_full entries finalized = finalized && int_equal (pos (length entries)) c.batch_size

  -- `process` from the answer of `MarkPublished` on.
  abbrev pub published_result :
      List (Entry M) → Log M E → List (Entry M) → Bool → Option E → Log M E × Bool
  published_result entries log published finalized (some e) =
      (publication_marked published (some e) ∷ log, false)
  published_result entries log published finalized none =
      (publication_marked published none ∷ log, is_full entries finalized)

  -- `process` from the end of the loop on.
  unfoldable pub conclude : List (Entry M) → Round M E → Log M E × Bool
  conclude entries (returned log) = (log, false)
  conclude entries (finished log published finalized) =
      if is_empty published
      then (log, is_full entries finalized)
      else published_result entries log published finalized (w.mark_published log published)

  -- `process` from the answer of the claim on.
  abbrev pub process_claimed : Log M E → Result E (List (Entry M)) → Log M E × Bool
  process_claimed log (err e) = (log, false)
  process_claimed log (ok entries) =
      if is_empty entries then (log, false) else conclude entries (publish_each entries log [] true)

  unfoldable pub process : Log M E → Log M E × Bool
  unfolding publish_each conclude
  process log =
      let answer = w.claim_pending log c.batch_size in process_claimed (claimed answer ∷ log) answer

  -- `Start` for as many rounds as the first argument says: the log, and whether it returned.
  unfoldable pub start : ℕ → Log M E → Log M E × Bool
  unfolding process
  start zero log = (log, false)
  start (suc rounds) log =
      let (log1, full) = process log in
      let rest = start rounds (if full then log1 else waited true ∷ log1) in
      if w.cancelled log || w.draining log
      then (log, true)
      else if w.cancelled log1 || w.draining log1
      then (log1, true)
      else if full
      then rest
      else if w.wakes log1
      then rest
      else (waited false ∷ log1, true)
