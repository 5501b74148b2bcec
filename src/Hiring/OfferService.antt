-- ===== src/Hiring/OfferService.antt =====
-- services/hiring/internal/usecase/offer: send.go, accept.go, decline.go, revoke.go and expire.go, over
-- the interfaces of service.go. The repositories, the authorization, the event factory and the driver
-- of the database are parameters; `txManager.Do` is that of packages/go/txmanager, called with a
-- context that carries no transaction. The identifier of a new stage transition and the clock are
-- arguments.
pub mod Storing
pub mod Accepting
pub mod Expiring
mod Tests
use careeria.Base.{
  ℕ, Bool, true, false, not, Option, none, some, ◌++◌, if◌then◌else◌, ◌==◌, Result, ok, err,
}
use careeria.Base.Text.{Text, codes}
use careeria.Domain.{Time, Uuid}
use careeria.Hiring.Application.Stage.{PipelineStage, interview, offer_accepted}
use careeria.Hiring.Application.{JobApplication, change_stage}
use careeria.Packages.Transactions.{Driver, do_transaction}
use careeria.Packages.Transactions as transactions
use careeria.Hiring.Offer.{
  JobOffer, Error, invalid_status, offer_expired, offer_not_expired, send, accept, decline, revoke,
  expire,
}

pub data LoadError : Type 0 where
  not_found unavailable : LoadError

pub data OfferEvent : Type 0 where
  event_sent : Time → OfferEvent
  event_accepted event_expired : OfferEvent
  event_declined event_revoked : Text → OfferEvent

-- The errors of the function that `txManager.Do` runs.
pub data StoreError : Type 0 where
  offer_not_updated application_not_updated message_not_saved : StoreError

pub data Failure (E : Type 0) : Type 0 where
  empty_offer_id offer_missing application_missing load_failed access_denied : Failure E
  conflict_expired conflict_not_expired conflict_status conflict_stage : Failure E
  event_failed : Failure E
  not_stored : transactions.Failure StoreError E → Failure E
  offer_error : Error → Failure E

-- The interfaces of the service, over a store `S`, messages `M` and errors `E` of the driver.
pub record Ports (S M E : Type 0) : Type 0 where
  pub get_offer : S → Uuid → Result LoadError JobOffer
  pub get_application : S → Uuid → Result LoadError JobApplication
  pub update_offer : S → JobOffer → Option S
  pub update_application : S → JobApplication → Option S
  pub save_message : S → M → Option S
  pub can_manage : Uuid → Uuid → Bool
  pub can_respond : Uuid → Uuid → Bool
  pub create_message : OfferEvent → Uuid → ℕ → Time → Option M
  pub driver : Driver S E

abbrev pub load_error : {E : Type 0} → Failure E → LoadError → Failure E
load_error missing not_found = missing
load_error missing unavailable = load_failed

-- The errors of `Send` and `Accept`, of `Decline` and `Revoke`, and of `Expire`, as answered.
abbrev pub answer_timed : {E : Type 0} → Error → Failure E
answer_timed offer_expired = conflict_expired
answer_timed invalid_status = conflict_status
answer_timed e = offer_error e

abbrev pub answer_status : {E : Type 0} → Error → Failure E
answer_status invalid_status = conflict_status
answer_status e = offer_error e

abbrev pub answer_expiry : {E : Type 0} → Error → Failure E
answer_expiry offer_not_expired = conflict_not_expired
answer_expiry invalid_status = conflict_status
answer_expiry e = offer_error e

module _ {S M E : Type 0} (p : Ports S M E) where
  unfoldable pub load_offer : S → Uuid → Result (Failure E) JobOffer
  load_offer s id =
      if id == 0
      then err empty_offer_id
      else elim (p.get_offer s id) [ err e ↦ err (load_error offer_missing e) | ok o ↦ ok o ]

  -- The function that `txManager.Do` runs, where the application is not changed: the store that it
  -- has made within the transaction, and its error.
  unfoldable pub store_offer : JobOffer → M → S → S × Option StoreError
  store_offer o m s = elim (p.update_offer s o) [
    | none ↦ (s, some offer_not_updated)
    | some t ↦ elim (p.save_message t m) [ none ↦ (t, some message_not_saved) | some u ↦ (u, none) ]
  ]

  -- The function that `txManager.Do` runs, where the application is changed too.
  unfoldable pub store_both : JobOffer → JobApplication → M → S → S × Option StoreError
  store_both o a m s = elim (p.update_offer s o) [
    | none ↦ (s, some offer_not_updated)
    | some t ↦ elim (p.update_application t a) [
      | none ↦ (t, some application_not_updated)
      | some u ↦ elim (p.save_message u m) [
        | none ↦ (u, some message_not_saved)
        | some v ↦ (v, none)
      ]
    ]
  ]

  -- `return s.txManager.Do(ctx, ...)`
  abbrev pub answered : S × Option (transactions.Failure StoreError E) → S × Option (Failure E)
  answered (s, failure) = (s, elim failure [ none ↦ none | some e ↦ some (not_stored e) ])

  unfoldable pub transaction : (S → S × Option StoreError) → S → S × Option (Failure E)
  unfolding do_transaction
  transaction fn s = answered (do_transaction p.driver false (λ in_transaction. fn) s)

  unfoldable pub publish_offer : S → JobOffer → OfferEvent → Time → S × Option (Failure E)
  unfolding store_offer transaction
  publish_offer s o event now = elim (p.create_message event o.id o.version now) [
    | none ↦ (s, some event_failed)
    | some m ↦ transaction (store_offer o m) s
  ]

  unfoldable pub publish_both :
      S → JobOffer → JobApplication → OfferEvent → Time → S × Option (Failure E)
  unfolding store_both transaction
  publish_both s o a event now = elim (p.create_message event o.id o.version now) [
    | none ↦ (s, some event_failed)
    | some m ↦ transaction (store_both o a m) s
  ]

  unfoldable pub send_offer : S → Uuid → Uuid → Time → S × Option (Failure E)
  unfolding load_offer publish_offer
  send_offer s id actor now = elim (load_offer s id) [
    | err e ↦ (s, some e)
    | ok o ↦
        if not (p.can_manage actor o.application_id)
        then (s, some access_denied)
        else elim (send o now).1 [
          | some e ↦ (s, some (answer_timed e))
          | none ↦ publish_offer s (send o now).0 (event_sent (send o now).0.expires_at) now
        ]
  ]

  unfoldable pub expire_offer : S → Uuid → Time → S × Option (Failure E)
  unfolding load_offer publish_offer
  expire_offer s id now = elim (load_offer s id) [
    | err e ↦ (s, some e)
    | ok o ↦ elim (expire o now).1 [
      | some e ↦ (s, some (answer_expiry e))
      | none ↦ publish_offer s (expire o now).0 event_expired now
    ]
  ]

  -- What `AcceptOffer`, `DeclineOffer` and `RevokeOffer` share once the actor has access: the
  -- application, the change of the offer, the change of the stage, and the storing of both.
  unfoldable pub change_both :
      S
      → JobOffer
      → JobOffer × Option Error
      → (Error → Failure E)
      → Uuid
      → PipelineStage
      → Uuid
      → Text
      → OfferEvent
      → Time
      → S × Option (Failure E)
  unfolding publish_both
  change_both s o changed answer fresh_id target actor reason event now =
      elim (p.get_application s o.application_id) [
        | err e ↦ (s, some (load_error application_missing e))
        | ok a ↦ elim changed.1 [
          | some e ↦ (s, some (answer e))
          | none ↦
              let moved = change_stage a fresh_id target actor reason now in
              elim moved.1 [
                | some e ↦ (s, some conflict_stage)
                | none ↦ publish_both s changed.0 moved.0 event now
              ]
        ]
      ]

  unfoldable pub accept_offer : S → Uuid → Uuid → Uuid → Time → S × Option (Failure E)
  unfolding load_offer change_both
  accept_offer s id fresh_id actor now = elim (load_offer s id) [
    | err e ↦ (s, some e)
    | ok o ↦
        if not (p.can_respond actor o.application_id)
        then (s, some access_denied)
        else change_both s o (accept o now) answer_timed fresh_id offer_accepted actor
            (codes "offer accepted by candidate") event_accepted now
  ]

  unfoldable pub decline_offer : S → Uuid → Uuid → Text → Uuid → Time → S × Option (Failure E)
  unfolding load_offer change_both
  decline_offer s id fresh_id reason actor now = elim (load_offer s id) [
    | err e ↦ (s, some e)
    | ok o ↦
        if not (p.can_respond actor o.application_id)
        then (s, some access_denied)
        else change_both s o (decline o reason now) answer_status fresh_id interview actor
            (codes "offer declined: " ++ reason) (event_declined reason) now
  ]

  unfoldable pub revoke_offer : S → Uuid → Uuid → Text → Uuid → Time → S × Option (Failure E)
  unfolding load_offer change_both
  revoke_offer s id fresh_id reason actor now = elim (load_offer s id) [
    | err e ↦ (s, some e)
    | ok o ↦
        if not (p.can_manage actor o.application_id)
        then (s, some access_denied)
        else change_both s o (revoke o reason now) answer_status fresh_id interview actor
            (codes "offer revoked: " ++ reason) (event_revoked reason) now
  ]
