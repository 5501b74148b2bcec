-- ===== src/Packages/Inbox/Delivery.antt =====
-- Messages delivered again and again through `WithInbox` of packages/go/inbox/inbox.go.
use careeria.Base.{
  ℕ, ◌+◌, ◌≤◌, ◌≡◌, refl, Bool, true, false, ◌||◌, Option, none, some, List, [], ◌∷◌, arith, Result,
  ok, err, Comparable, if◌then◌else◌, inl, inr, ap, ◌∙◌, All, All-mono,
}
use careeria.Base.Guards.{checked}
use careeria.Packages.Transactions.{Atomic, Failure, begin_failed, settle}
use careeria.Packages.Inbox.{
  Inbox, InboxError, Repository, Handler, body, handled_result, inserted_result, with_inbox,
}

-- What is documented of the repository and of the handlers, in terms of the rows of the inbox and
-- of the effects that the handlers had: an insert finds the row, or makes it and touches nothing
-- else; a handler that reports no error has the effect of its message once and leaves the rows.
pub record Documented {S M E : Type 0} ⦃c : Comparable M⦄ (insert : Repository S M E)
    (handler : M → Handler S E) : Type 0 where
  pub seen : S → M → Bool
  pub effects : S → M → ℕ
  pub inserts :
      (m : M) (s : S)
      → (insert m s).1 ≡ ok true
      → (seen s m ≡ false)
        × ((k : M) → seen (insert m s).0 k ≡ (c.equal m k || seen s k))
        × ((k : M) → effects (insert m s).0 k ≡ effects s k)
  pub finds : (m : M) (s : S) → (insert m s).1 ≡ ok false → ((insert m s).0 ≡ s) × (seen s m ≡ true)
  pub handles :
      (m : M) (s : S)
      → (handler m s).1 ≡ none
      → ((k : M) → seen (handler m s).0 k ≡ seen s k)
        × ((k : M) → effects (handler m s).0 k ≡ (if c.equal m k then 1 else 0) + effects s k)

module _ {S M E : Type 0} (i : Inbox S M E) (handler : M → Handler S E) where
  -- Deliveries in a row: the state that they leave, and each message with its result.
  unfoldable pub deliver_all : List M → S → S × List (M × Option (Failure (InboxError E) E))
  deliver_all [] s = (s, [])
  deliver_all (m ∷ ms) s =
      let (s', r) = with_inbox i false m (some (handler m)) s in
      let (s'', rs) = deliver_all ms s' in (s'', (m, r) ∷ rs)

module _ {S M E : Type 0} ⦃c : Comparable M⦄ (i : Inbox S M E) (handler : M → Handler S E)
    (d : Documented i.repository handler) where
  -- A message has had its effect once, if its row is there, and not at all otherwise.
  abbrev pub Balanced : S → Type 0
  Balanced s = (k : M) → d.effects s k ≡ (if d.seen s k then 1 else 0)

  -- What a transaction that takes place does.
  record Handled (m : M) (s w : S) : Type 0 where
    balanced : Balanced s → Balanced w
    arrived : d.seen w m ≡ true
    stays : (k : M) → d.seen s k ≡ true → d.seen w k ≡ true

  effect-Handled :
      (m : M) (s : S)
      → (i.repository m s).1 ≡ ok true
      → (handler m (i.repository m s).0).1 ≡ none
      → Handled m s (handler m (i.repository m s).0).0
  effect-Handled m s inserted done =
      let (unseen, rows, same) = d.inserts m s inserted in
      let (kept, effect) = d.handles m (i.repository m s).0 done in
      record {
        balanced = λ b k.
            ground (arith, unseen, rows k, same k, kept k, effect k, b k, (c.equal_iff m k).0);
        arrived = ground (arith, rows m, kept m, (c.equal_iff m m).1 refl);
        stays = λ k h. ground (arith, rows k, kept k);
      }

  found-Handled :
      (m : M) (s : S) → (i.repository m s).1 ≡ ok false → Handled m s (i.repository m s).0
  found-Handled m s old =
      let (same, there) = d.finds m s old in
      rw same (record { balanced = λ b. b; arrived = there; stays = λ k h. h })

  -- The function that runs in the transaction, where it reports no error.
  body-Handled :
      (m : M) (s : S) → (body i m (handler m) s).1 ≡ none → Handled m s (body i m (handler m) s).0
  body-Handled m s h = go (i.repository m s) refl h
    where
      done :
          (r : S × Option E)
          → handler m (i.repository m s).0 ≡ r
          → (i.repository m s).1 ≡ ok true
          → (handled_result r).1 ≡ none
          → Handled m s (handled_result r).0
      done (w, some e) e' inserted h = cc
      done (w, none) e' inserted h =
          let e1 : (handler m (i.repository m s).0).1 ≡ none = rw e' refl in
          let e0 : (handler m (i.repository m s).0).0 ≡ w = rw e' refl in
          rw (← e0) (effect-Handled m s inserted e1)

      go :
          (r : S × Result E Bool)
          → i.repository m s ≡ r
          → (inserted_result (handler m) r).1 ≡ none
          → Handled m s (inserted_result (handler m) r).0
      go (s', err e) e' h = cc
      go (s', ok false) e' h =
          let e0 : (i.repository m s).0 ≡ s' = rw e' refl in
          rw (← e0) (found-Handled m s (rw e' refl))
      go (s', ok true) e' h = done (handler m s') (rw e' refl) (rw e' refl) h

  -- What a delivery does, where the context carries no transaction.
  record Delivered (m : M) (s : S) (r : S × Option (Failure (InboxError E) E)) : Type 0 where
    balanced : Balanced s → Balanced r.0
    stays : (k : M) → d.seen s k ≡ true → d.seen r.0 k ≡ true
    arrived : r.1 ≡ none → d.seen r.0 m ≡ true

  module _ (a : Atomic i.tx_manager) (m : M) (s : S) where
    unchanged : (e : Failure (InboxError E) E) → Delivered m s (s, some e)
    unchanged e = record { balanced = λ b. b; stays = λ k h. h; arrived = λ h. cc }

    settle-Delivered :
        (r : S × Option (InboxError E))
        → (r.1 ≡ none → Handled m s r.0)
        → Delivered m s (settle i.tx_manager s r)
    settle-Delivered (w, some e) h =
        let back = a.rolled_back s w in
        record {
          balanced = λ b. rw back b;
          stays = λ k t. rw back t;
          arrived = λ t. absurd (ground arith);
        }
    settle-Delivered (w, none) h =
        let done = h refl in
        elim (a.commit_whole s w) [
          | inl took ↦ record {
            balanced = λ b. rw took (done.balanced b);
            stays = λ k t. rw took (done.stays k t);
            arrived = λ t. rw took done.arrived;
          }
          | inr lost ↦ record {
            balanced = λ b. rw lost b;
            stays = λ k t. rw lost t;
            arrived = λ t. rw (a.committed s w (ground arith)) done.arrived;
          }
        ]

    with_inbox-Delivered : Delivered m s (with_inbox i false m (some (handler m)) s)
    unfolding with_inbox
    with_inbox-Delivered =
        checked (Delivered m s) (i.tx_manager.begin s) _ _ (λ e. unchanged (begin_failed e))
          (λ begun. settle-Delivered (body i m (handler m) s) (body-Handled m s))

  -- The message had its effect exactly once in the state, where its delivery reported no error.
  abbrev pub Once : S → M × Option (Failure (InboxError E) E) → Type 0
  Once s (m, r) = r ≡ none → d.effects s m ≡ 1

  record Settled (s : S) (r : S × List (M × Option (Failure (InboxError E) E))) : Type 0 where
    balanced : Balanced s → Balanced r.0
    stays : (k : M) → d.seen s k ≡ true → d.seen r.0 k ≡ true
    arrived : All (λ x. x.1 ≡ none → d.seen r.0 x.0 ≡ true) r.1

  module _ (a : Atomic i.tx_manager) where
    deliver_all-Settled : (ms : List M) (s : S) → Settled s (deliver_all i handler ms s)
    unfolding deliver_all
    deliver_all-Settled [] s = record { balanced = λ b. b; stays = λ k h. h; arrived = tt }
    deliver_all-Settled (m ∷ ms) s =
        let first = with_inbox-Delivered a m s in
        let rest = deliver_all-Settled ms (with_inbox i false m (some (handler m)) s).0 in
        record {
          balanced = λ b. rest.balanced (first.balanced b);
          stays = λ k h. rest.stays k (first.stays k h);
          arrived = (λ h. rest.stays m (first.arrived h), rest.arrived);
        }

    -- Over a repository and handlers as documented, atomic transactions, and a store in which
    -- the messages whose row is there had their effect once and the others not at all: however
    -- often messages are delivered and whichever deliveries fail, the effect of no message
    -- takes place more than once, and the effect of each message with a delivery that reported
    -- no error has taken place exactly once.
    pub single_effect :
        (s : S) (ms : List M)
        → Balanced s
        → ((k : M) → d.effects (deliver_all i handler ms s).0 k ≤ 1)
          × All (Once (deliver_all i handler ms s).0) (deliver_all i handler ms s).1
    single_effect s ms b =
        let all = deliver_all-Settled ms s in
        let after = all.balanced b in
        (
          λ k. ground (arith, after k),
          All-mono _ (Once (deliver_all i handler ms s).0) (deliver_all i handler ms s).1
              (λ x there done. after x.0 ∙ ap (λ t. if t then 1 else 0) (there done)) all.arrived,
        )
