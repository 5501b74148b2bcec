-- ===== src/Packages/Transactions.antt =====
-- packages/go/txmanager/manager.go. The database is a parameter: a transaction works on the state
-- that it finds, and `Commit` and `Rollback` say which state they leave. The context tells only
-- whether it carries a transaction. A panic of the function is not modelled.
use careeria.Base.{◌≡◌, ◌⊎◌, Bool, true, false, Option, none, some}

-- What the driver's `Begin`, `Commit` and `Rollback` do with the state before the transaction and
-- the state that it made.
pub record Driver {ℓ κ} (S : Type ℓ) (E : Type κ) : Type (ℓ ⊔ κ) where
  pub begin : S → Option E
  pub commit : S → S → S × Option E
  pub rollback : S → S → S × Option E

-- A transaction takes place as a whole or not at all, and a commit that reports no error took
-- place; whether one that reports an error did is open.
pub record Atomic {ℓ κ} {S : Type ℓ} {E : Type κ} (d : Driver S E) : Type (ℓ ⊔ κ) where
  pub committed : (s w : S) → (d.commit s w).1 ≡ none → (d.commit s w).0 ≡ w
  pub commit_whole : (s w : S) → ((d.commit s w).0 ≡ w) ⊎ ((d.commit s w).0 ≡ s)
  pub rolled_back : (s w : S) → (d.rollback s w).0 ≡ s

-- The error of `Do`: that of the function, of the driver, or the two joined.
pub data Failure {ℓ κ} (F : Type ℓ) (E : Type κ) : Type (ℓ ⊔ κ) where
  begin_failed : E → Failure F E
  body_failed : F → Failure F E
  rollback_failed : F → E → Failure F E
  commit_failed : E → Failure F E

module _ {S F E : Type 0} (d : Driver S E) where
  -- `Do` from the result of the function on: the deferred commit or rollback.
  abbrev pub settle : S → S × Option F → S × Option (Failure F E)
  settle s (w, some e) =
      let (s', refused) = d.rollback s w in
      (s', elim refused [ none ↦ some (body_failed e) | some r ↦ some (rollback_failed e r) ])
  settle s (w, none) =
      let (s', refused) = d.commit s w in
      (s', elim refused [ none ↦ none | some c ↦ some (commit_failed c) ])

  -- The error of the function as it stands, where the transaction is the caller's.
  abbrev pub passed_on : S × Option F → S × Option (Failure F E)
  passed_on (w, none) = (w, none)
  passed_on (w, some e) = (w, some (body_failed e))

  unfoldable pub do_transaction : Bool → (Bool → S → S × Option F) → S → S × Option (Failure F E)
  do_transaction true fn s = passed_on (fn true s)
  do_transaction false fn s = elim (d.begin s) [
    | some e ↦ (s, some (begin_failed e))
    | none ↦ settle s (fn true s)
  ]
