-- ===== src/Packages/Outbox/Tests.antt =====
-- A worker with a batch of two entries, the second of which cannot be published.
use careeria.Base.{
  ℕ, ◌≡◌, refl, true, false, none, some, [], ◌∷◌, ◌==◌, ok, if◌then◌else◌, is_empty,
}
use careeria.Base.Int.{pos}
use careeria.Base.Text.{codes}
use careeria.Packages.Outbox.{
  Config, Entry, claimed, sent, failure_marked, publication_marked, World, process, start, validate,
}
use careeria.Packages.Outbox.Publishing.{IsJustified, new-start-IsJustified}
use careeria.Packages.Outbox.Finalizing.{Finished, process-Finished}

abbrev config : Config
config = record { batch_size = pos 2; poll_interval = pos 1000; publish_timeout = pos 500 }

config_valid : validate config ≡ none
unfolding validate
config_valid = refl

abbrev first : Entry ℕ
first = record { id = codes "a"; claim_token = codes "t"; message = 4 }

abbrev second : Entry ℕ
second = record { id = codes "b"; claim_token = codes "t"; message = 9 }

abbrev world : World ℕ ℕ
world = record {
  cancelled = λ log. false;
  draining = λ log. false;
  wakes = λ log. true;
  claim_pending = λ log limit. ok (if is_empty log then first ∷ second ∷ [] else []);
  publish = λ log message. if message == 9 then some 1 else none;
  mark_failed = λ log entry e. none;
  mark_published = λ log entries. none;
}

first_round :
    (process world config []).0
    ≡ publication_marked (first ∷ []) none
      ∷ failure_marked second 1 none
      ∷ sent second (some 1)
      ∷ sent first none
      ∷ claimed (ok (first ∷ second ∷ []))
      ∷ []
unfolding process
first_round = refl

first_full : (process world config []).1 ≡ true
unfolding process
first_full = refl

process-Finished_example : Finished world config [] (process world config []).0
process-Finished_example = process-Finished world config [] first_full

new-start-IsJustified_example : IsJustified (start world config 3 []).0
new-start-IsJustified_example = new-start-IsJustified world config 3
