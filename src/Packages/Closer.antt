-- ===== src/Packages/Closer.antt =====
-- packages/go/closer/closer.go. A closer that is not nil is its number; `fails` is what the closers'
-- own `Close` reports. The log has the closers in the order in which they were closed. The mutex
-- makes each method one step, but for the calls of the closers, which come after it is released.
pub mod Once
mod Tests
use careeria.Base.{ℕ, Bool, true, false, Option, none, some, List, [], ◌∷◌, ◌++◌, if◌then◌else◌}

pub record Closer : Type 0 where
  pub closed : Bool
  pub closers : List ℕ
  pub log : List ℕ

abbrev pub new : Closer
new = record { closed = false; closers = []; log = [] }

unfoldable pub add : Closer → Option ℕ → Closer
add c none = c
add c (some closer) =
    if c.closed
    then record c { log = c.log ++ closer ∷ [] }
    else record c { closers = c.closers ++ closer ∷ [] }

-- The loop of `Close`, which goes from the last closer to the first: the log and the errors.
unfoldable pub close_all {ℓ} : {E : Type ℓ} → (ℕ → Option E) → List ℕ → List ℕ × List E
close_all fails [] = ([], [])
close_all fails (closer ∷ closers) =
    let (log, errs) = close_all fails closers in
    (log ++ closer ∷ [], elim (fails closer) [ none ↦ errs | some e ↦ errs ++ e ∷ [] ])

-- The errors are those that `errors.Join` joins.
unfoldable pub close {ℓ} : {E : Type ℓ} → (ℕ → Option E) → Closer → Closer × List E
unfolding close_all
close fails c = if c.closed then (c, []) else (
  record { closed = true; closers = []; log = c.log ++ (close_all fails c.closers).0 },
  (close_all fails c.closers).1,
)
