-- ===== src/Packages/Inbox/Tests.antt =====
-- An inbox over a list of rows and a list of effects, with a handler that refuses the message 9.
use careeria.Base.{
  ℕ, ◌+◌, ◌≤◌, ◌≡◌, refl, true, false, none, some, List, [], ◌∷◌, ◌==◌, arith, ok, contains,
  nat_comparable, if◌then◌else◌, inl, All,
}
use careeria.Packages.Transactions.{Driver, Atomic}
use careeria.Packages.Inbox.{Inbox, Repository, Handler, with_inbox}
use careeria.Packages.Inbox.Delivery.{Documented, Balanced, deliver_all, Once, single_effect}

record Rows : Type 0 where
  ids : List ℕ
  done : List ℕ

abbrev insert : Repository Rows ℕ ℕ
insert m s = if contains s.ids m then (s, ok false) else (record s { ids = m ∷ s.ids }, ok true)

abbrev handler : ℕ → Handler Rows ℕ
handler m s = if m == 9 then (s, some 1) else (record s { done = m ∷ s.done }, none)

abbrev driver : Driver Rows ℕ
driver = record { begin = λ s. none; commit = λ s w. (w, none); rollback = λ s w. (s, none) }

driver-Atomic : Atomic driver
driver-Atomic = record {
  committed = λ s w h. refl;
  commit_whole = λ s w. inl refl;
  rolled_back = λ s w. refl;
}

abbrev inbox : Inbox Rows ℕ ℕ
inbox = record { tx_manager = driver; repository = insert }

abbrev occurrences : List ℕ → ℕ → ℕ
occurrences [] k = 0
occurrences (x ∷ xs) k = (if x == k then 1 else 0) + occurrences xs k

documented : Documented insert handler
documented = record {
  seen = λ s k. contains s.ids k;
  effects = λ s k. occurrences s.done k;
  inserts = λ m s h. (ground arith, λ k. ground arith, λ k. ground arith);
  finds = λ m s h. (ground arith, ground arith);
  handles = λ m s h. (λ k. ground arith, λ k. ground arith);
}

abbrev no_rows : Rows
no_rows = record { ids = []; done = [] }

no_rows-Balanced : Balanced inbox handler documented no_rows
unfolding documented
no_rows-Balanced k = refl

twice : (deliver_all inbox handler (3 ∷ 9 ∷ 3 ∷ []) no_rows).0.done ≡ 3 ∷ []
unfolding deliver_all with_inbox
twice = refl

single_effect_example :
    ((k : ℕ) → documented.effects (deliver_all inbox handler (3 ∷ 9 ∷ 3 ∷ []) no_rows).0 k ≤ 1)
    × All
        (Once inbox handler documented (deliver_all inbox handler (3 ∷ 9 ∷ 3 ∷ []) no_rows).0)
        (deliver_all inbox handler (3 ∷ 9 ∷ 3 ∷ []) no_rows).1
single_effect_example =
    single_effect inbox handler documented driver-Atomic no_rows (3 ∷ 9 ∷ 3 ∷ []) no_rows-Balanced
