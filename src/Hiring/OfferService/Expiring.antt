-- ===== src/Hiring/OfferService/Expiring.antt =====
-- Which use case stores an offer as expired: services/hiring/internal/usecase/offer.
use careeria.Base.{◌≡◌, ◌≢◌, Bool, true, false, some, ok}
use careeria.Domain.{Uuid}
use careeria.Hiring.Offer.{JobOffer, expired}
use careeria.Hiring.OfferService.{Ports}
use careeria.Hiring.OfferService.Storing.{Call, expires}
use careeria.Hiring.OfferService.Accepting.{Laws}

abbrev pub is_expiry : Call → Bool
is_expiry (expires id actor) = true
is_expiry _ = false

module _ {S M E : Type 0} (p : Ports S M E) (laws : Laws p) where
  -- An update of an offer leaves the other offers alone.
  abbrev pub KeepsOthers : Type 0
  KeepsOthers =
      (s t : S) (o : JobOffer) (id : Uuid)
      → p.update_offer s o ≡ some t
      → id ≢ o.id
      → p.get_offer t id ≡ p.get_offer s id

  module _ (others : KeepsOthers) where
    -- An expired offer in the store `t` was there in `s`.
    abbrev WasExpired : S → S → Type 0
    WasExpired s t =
        (id : Uuid) (o : JobOffer)
        → p.get_offer t id ≡ ok o
        → o.status ≡ expired
        → p.get_offer s id ≡ ok o
