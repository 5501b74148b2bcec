-- ===== src/Packages/Inbox.antt =====
-- packages/go/inbox: inbox.go, contracts.go, errors.go, over the transactions of
-- packages/go/txmanager. The repository and the handler are parameters, given by what they do to
-- the state; the context is the transaction that carries it.
pub mod Delivery
mod Tests
use careeria.Base.{Bool, true, false, not, Option, none, some, Result, ok, err, if◌then◌else◌}
use careeria.Packages.Transactions.{Driver, Failure, do_transaction}

pub data InboxError (E : Type 0) : Type 0 where
  nil_tx_manager nil_repository nil_handler : InboxError E
  insert_failed handle_failed : E → InboxError E

-- `Repository`, of which `Insert` is the only method.
abbrev pub Repository : Type 0 → Type 0 → Type 0 → Type 0
Repository S M E = M → S → S × Result E Bool

abbrev pub Handler : Type 0 → Type 0 → Type 0
Handler S E = S → S × Option E

pub record Inbox (S M E : Type 0) : Type 0 where
  pub tx_manager : Driver S E
  pub repository : Repository S M E

module _ {S E : Type 0} where
  abbrev pub handled_result : S × Option E → S × Option (InboxError E)
  handled_result (s, none) = (s, none)
  handled_result (s, some e) = (s, some (handle_failed e))

  abbrev pub inserted_result : Handler S E → S × Result E Bool → S × Option (InboxError E)
  inserted_result handler (s, err e) = (s, some (insert_failed e))
  inserted_result handler (s, ok inserted) =
      if not inserted then (s, none) else handled_result (handler s)

module _ {S M E : Type 0} where
  unfoldable pub new :
      Option (Driver S E) → Option (Repository S M E) → Result (InboxError E) (Inbox S M E)
  new none repository = err nil_tx_manager
  new (some tx_manager) none = err nil_repository
  new (some tx_manager) (some repository) =
      ok (record { tx_manager = tx_manager; repository = repository })

  -- The function that `WithInbox` runs in the transaction.
  abbrev pub body : Inbox S M E → M → Handler S E → S → S × Option (InboxError E)
  body i message handler s = inserted_result handler (i.repository message s)

  -- `in_tx` says whether the context carries a transaction.
  unfoldable pub with_inbox :
      Inbox S M E → Bool → M → Option (Handler S E) → S → S × Option (Failure (InboxError E) E)
  unfolding do_transaction
  with_inbox i in_tx message none s = (s, some (Failure.body_failed nil_handler))
  with_inbox i in_tx message (some handler) s =
      do_transaction i.tx_manager in_tx (λ ctx. body i message handler) s
