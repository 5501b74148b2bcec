-- ===== src/Hiring/Offer/Tests.antt =====
-- An offer that is sent and accepted.
use careeria.Base.{◌+◌, ◌≡◌, refl, none, List, [], ◌∷◌, ok}
use careeria.Base.Text.{codes, trim_space}
use careeria.Domain.{Time}
use careeria.Hiring.Offer.{
  JobOffer, create, valid_currency, draft, sent, accept, min_offer_duration,
}
use careeria.Hiring.Offer.Lifecycle.{Call, sends, accepts, revokes}

abbrev offer : JobOffer
offer = record {
  id = 1;
  application_id = 2;
  compensation = 100;
  currency = codes "EUR";
  grade = codes "senior";
  status = draft;
  expires_at = 10 + min_offer_duration;
  version = 1;
  created_at = 10;
  updated_at = 10;
}

abbrev sent_offer : JobOffer
sent_offer = record offer { status = sent; version = 2; updated_at = 20 }

abbrev calls : List (Call × Time)
calls = (accepts, 15) ∷ (sends, 20) ∷ (accepts, 30) ∷ (revokes (codes "late"), 40) ∷ []

sent_accepted : (accept sent_offer 30).1 ≡ none
unfolding accept
sent_accepted = refl

offer_made : create 1 2 100 (codes "EUR") (codes "senior") (10 + min_offer_duration) 10 ≡ ok offer
unfolding create valid_currency trim_space
offer_made = refl
