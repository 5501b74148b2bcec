-- ===== src/Hiring/OfferService/Storing.antt =====
-- What the use cases of offers store: services/hiring/internal/usecase/offer, in the transaction of
-- packages/go/txmanager/manager.go.
use careeria.Base.{Bool, true, false, ◌≡◌, Option, none, some}
use careeria.Base.Text.{Text}
use careeria.Domain.{Time, Uuid}
use careeria.Hiring.Application.{JobApplication}
use careeria.Packages.Transactions.{commit_failed}
use careeria.Hiring.Offer.{JobOffer, OfferStatus, sent, accepted, declined, revoked, expired}
use careeria.Hiring.OfferService.{
  Failure, not_stored, Ports, store_offer, store_both, send_offer, expire_offer, accept_offer,
  decline_offer, revoke_offer,
}

pub data Call : Type 0 where
  sends expires : Uuid → Uuid → Call
  accepts : Uuid → Uuid → Uuid → Call
  declines revokes : Uuid → Uuid → Text → Uuid → Call

-- Whether the application is changed with an offer that comes to this status.
abbrev pub moves_application : OfferStatus → Bool
moves_application accepted = true
moves_application declined = true
moves_application revoked = true
moves_application _ = false

-- The status in which a call means to leave its offer.
abbrev pub status_after : Call → OfferStatus
status_after (sends id actor) = sent
status_after (expires id actor) = expired
status_after (accepts id fresh_id actor) = accepted
status_after (declines id fresh_id reason actor) = declined
status_after (revokes id fresh_id reason actor) = revoked

module _ {S M E : Type 0} (p : Ports S M E) where
  unfoldable pub perform : S → Call → Time → S × Option (Failure E)
  perform s (sends id actor) now = send_offer p s id actor now
  perform s (expires id actor) now = expire_offer p s id now
  perform s (accepts id fresh_id actor) now = accept_offer p s id fresh_id actor now
  perform s (declines id fresh_id reason actor) now = decline_offer p s id fresh_id reason actor now
  perform s (revokes id fresh_id reason actor) now = revoke_offer p s id fresh_id reason actor now

  -- The store `w` holds all that one use case writes onto `s`: an offer in this status, its
  -- application where that is changed too, and the message.
  pub data Whole (status : OfferStatus) (s w : S) : Type 0 where
    one :
        (o : JobOffer) (m : M)
        → moves_application status ≡ false
        → o.status ≡ status
        → store_offer p o m s ≡ (w, none)
        → Whole status s w
    both :
        (o : JobOffer) (a : JobApplication) (m : M)
        → moves_application status ≡ true
        → o.status ≡ status
        → store_both p o a m s ≡ (w, none)
        → Whole status s w

  -- What a use case answers and the store it leaves: everything is stored, or nothing is and an error
  -- is reported, or it is the commit that failed, after which everything may be stored.
  pub data IsAtomic (status : OfferStatus) (s : S) : S × Option (Failure E) → Type 0 where
    stored : {w : S} → Whole status s w → IsAtomic status s (w, none)
    untouched : (e : Failure E) → IsAtomic status s (s, some e)
    in_doubt :
        {w : S} (c : E)
        → Whole status s w
        → IsAtomic status s (w, some (not_stored (commit_failed c)))
