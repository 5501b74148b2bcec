-- ===== src/Hiring/OfferService/Accepting.antt =====
-- What `AcceptOffer` leaves in the store: services/hiring/internal/usecase/offer/accept.go.
use careeria.Base.{◌≡◌, refl, sym, ap, ◌∙◌, subst, true, false, not, Option, none, some, ok, arith}
use careeria.Base.Guards.{guarded, checked, settled, found}
use careeria.Base.Text.{codes}
use careeria.Domain.{Time, Uuid}
use careeria.Hiring.Application.Stage.{offer_accepted, can_transition_to}
use careeria.Hiring.Application.Errors as application
use careeria.Hiring.Application.History.{change_stage-split}
use careeria.Hiring.Application.{JobApplication, change_stage}
use careeria.Packages.Transactions.{Atomic, commit_failed, settle, do_transaction}
use careeria.Hiring.Offer.{JobOffer, sent, is_sent, accepted, is_expired, set_status, Error, accept}
use careeria.Hiring.OfferService.{
  OfferEvent, Failure, StoreError, Ports, load_offer, store_both, answered, transaction,
  publish_both, change_both, accept_offer, event_accepted,
}

-- What the repositories promise: what is updated is found again, and nothing else is touched; and
-- what the driver does: a transaction takes place as a whole or not at all.
pub record Laws {S M E : Type 0} (p : Ports S M E) : Type 0 where
  pub transactions : Atomic p.driver
  pub offer_updated :
      {s t : S} {o : JobOffer} → p.update_offer s o ≡ some t → p.get_offer t o.id ≡ ok o
  pub application_updated :
      {s t : S} {a : JobApplication}
      → p.update_application s a ≡ some t
      → p.get_application t a.id ≡ ok a
  pub offer_kept :
      {s t : S} {a : JobApplication} (id : Uuid)
      → p.update_application s a ≡ some t
      → p.get_offer t id ≡ p.get_offer s id
  pub offer_kept_by_message :
      {s t : S} {m : M} (id : Uuid)
      → p.save_message s m ≡ some t
      → p.get_offer t id ≡ p.get_offer s id
  pub application_kept_by_message :
      {s t : S} {m : M} (id : Uuid)
      → p.save_message s m ≡ some t
      → p.get_application t id ≡ p.get_application s id

accept_done :
    (o : JobOffer) (now : Time)
    → (accept o now).1 ≡ none
    → (o.status ≡ sent)
      × (is_expired o now ≡ false)
      × ((accept o now).0 ≡ set_status o accepted now)
unfolding accept
accept_done o now =
    guarded P (not (is_sent o.status)) _ _ (λ h. cc h)
      (λ here.
        guarded P (is_expired o now) _ _ (λ h. cc h)
          (λ in_time h. (ground (arith, here), in_time, refl)))
  where
    P : JobOffer × Option Error → Type 0
    P r =
        r.1 ≡ none
        → (o.status ≡ sent) × (is_expired o now ≡ false) × (r.0 ≡ set_status o accepted now)

change_done :
    (a : JobApplication) (fresh_id actor : Uuid) (now : Time)
    → (change_stage a fresh_id offer_accepted actor (codes "offer accepted by candidate") now).1
      ≡ none
    → let b =
        (change_stage a fresh_id offer_accepted actor
          (codes "offer accepted by candidate")
          now).0 in
      (can_transition_to a.current_stage offer_accepted ≡ true)
      × (b.id ≡ a.id)
      × (b.current_stage ≡ offer_accepted)
change_done a fresh_id actor now =
    change_stage-split P a fresh_id offer_accepted actor (codes "offer accepted by candidate") now
      (λ e h. cc h) (λ known edge h. (edge, refl, refl))
  where
    P : JobApplication × Option application.Error → Type 0
    P r =
        r.1 ≡ none
        → (can_transition_to a.current_stage offer_accepted ≡ true)
          × (r.0.id ≡ a.id)
          × (r.0.current_stage ≡ offer_accepted)

module _ {S M E : Type 0} (p : Ports S M E) (laws : Laws p) where
  -- Both are stored.
  abbrev HasBoth : S → JobOffer → JobApplication → Type 0
  HasBoth t o a = (p.get_offer t o.id ≡ ok o) × (p.get_application t a.id ≡ ok a)

  store_both-HasBoth :
      (s t : S) (o : JobOffer) (a : JobApplication) (m : M)
      → store_both p o a m s ≡ (t, none)
      → HasBoth t o a
  unfolding store_both
  store_both-HasBoth s t o a m =
      found P (p.update_offer s o) _ _ (λ h. cc h)
        (λ s1 first.
          found P (p.update_application s1 a) _ _ (λ h. cc h)
            (λ s2 second.
              found P (p.save_message s2 m) _ _ (λ h. cc h)
                (λ s3 third h.
                  let last : p.save_message s2 m ≡ some t = third ∙ ap some (ap (λ x. x.0) h) in
                  (
                    laws.offer_kept_by_message o.id last
                        ∙ laws.offer_kept o.id second
                        ∙ laws.offer_updated first,
                    laws.application_kept_by_message a.id last ∙ laws.application_updated second,
                  ))))
    where
      P : S × Option StoreError → Type 0
      P r = r ≡ (t, none) → HasBoth t o a

  settle_done :
      (s t : S) (r : S × Option StoreError)
      → answered p (settle p.driver s r) ≡ (t, none)
      → r ≡ (t, none)
  settle_done s t (w, some e) =
      found
        (λ x.
          answered p ((p.driver.rollback s w).0, x) ≡ (t, none)
          → ◌≡◌ {A = S × Option StoreError} (w, some e) (t, none))
        (p.driver.rollback s w).1 _ _ (λ h. cc h) (λ x back h. cc h)
  settle_done s t (w, none) = committed_as (p.driver.commit s w) (laws.transactions.committed s w)
    where
      committed_as :
          (r : S × Option E)
          → (r.1 ≡ none → r.0 ≡ w)
          → answered p (r.0, elim r.1 [ none ↦ none | some c ↦ some (commit_failed c) ]) ≡ (t, none)
          → ◌≡◌ {A = S × Option StoreError} (w, none) (t, none)
      committed_as (v, none) k h = cc (h, k refl)
      committed_as (v, some c) k h = cc h

  transaction_done :
      (s t : S) (fn : S → S × Option StoreError) → transaction p fn s ≡ (t, none) → fn s ≡ (t, none)
  unfolding transaction do_transaction
  transaction_done s t fn =
      checked (λ r. answered p r ≡ (t, none) → fn s ≡ (t, none)) (p.driver.begin s) _ _
        (λ e h. cc h) (λ begun. settle_done s t (fn s))

  publish_both-HasBoth :
      (s t : S) (o : JobOffer) (a : JobApplication) (event : OfferEvent) (now : Time)
      → publish_both p s o a event now ≡ (t, none)
      → HasBoth t o a
  unfolding publish_both
  publish_both-HasBoth s t o a event now =
      found P (p.create_message event o.id o.version now) _ _ (λ h. cc h)
        (λ m made h. store_both-HasBoth s t o a m (transaction_done s t (store_both p o a m) h))
    where
      P : S × Option (Failure E) → Type 0
      P r = r ≡ (t, none) → HasBoth t o a

  -- What an acceptance leaves of an offer and its application.
  pub record IsAccepted (s t : S) (id actor fresh_id : Uuid) (now : Time) : Type 0 where
    pub offer : JobOffer
    pub application : JobApplication
    pub was_stored : load_offer p s id ≡ ok offer
    pub was_sent : offer.status ≡ sent
    pub in_time : is_expired offer now ≡ false
    pub application_stored : p.get_application s offer.application_id ≡ ok application
    pub edge : can_transition_to application.current_stage offer_accepted ≡ true
    pub offer_now : p.get_offer t offer.id ≡ ok (set_status offer accepted now)
    pub application_now :
        (b : JobApplication) × (b.id ≡ application.id)
        × (b.current_stage ≡ offer_accepted)
        × (p.get_application t application.id ≡ ok b)

  -- When `AcceptOffer` reports no error, the offer in the store was sent and not yet expired, and
  -- the stage of its application could go on to `offer_accepted`. In the store that is left, the
  -- offer is accepted and the application is in that stage. The repositories are taken to find what
  -- was updated and to leave the rest alone, and the database to keep transactions whole.
  pub accept_offer-IsAccepted :
      (s t : S) (id fresh_id actor : Uuid) (now : Time)
      → accept_offer p s id fresh_id actor now ≡ (t, none)
      → IsAccepted s t id actor fresh_id now
  unfolding accept_offer change_both
  accept_offer-IsAccepted s t id fresh_id actor now =
      settled P (load_offer p s id) _ _ (λ e h. cc h)
        (λ o loaded.
          guarded P (not (p.can_respond actor o.application_id)) _ _ (λ h. cc h)
            (λ access.
              settled P (p.get_application s o.application_id) _ _ (λ e h. cc h)
                (λ a found_it.
                  checked P (accept o now).1 _ _ (λ e h. cc h)
                    (λ done.
                      checked P
                        (change_stage a fresh_id offer_accepted actor
                          (codes "offer accepted by candidate") now).1
                        _ _ (λ e h. cc h)
                        (λ moved h.
                          let both =
                            publish_both-HasBoth s t (accept o now).0 _ event_accepted now h in
                          let (was_sent, in_time, left) = accept_done o now done in
                          let (edge, same, stage) = change_done a fresh_id actor now moved in
                          record {
                            offer = o;
                            application = a;
                            was_stored = loaded;
                            was_sent = was_sent;
                            in_time = in_time;
                            application_stored = found_it;
                            edge = edge;
                            offer_now = subst (λ q. p.get_offer t q.id ≡ ok q) left both.0;
                            application_now =
                                (_, same, stage, sym (ap (p.get_application t) same) ∙ both.1);
                          })))))
    where
      P : S × Option (Failure E) → Type 0
      P r = r ≡ (t, none) → IsAccepted s t id actor fresh_id now
