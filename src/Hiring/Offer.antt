-- ===== src/Hiring/Offer.antt =====
-- services/hiring/internal/domain/offer: offer.go, and the status and currency of types.go. A method
-- returns the offer that it leaves and Go's `error`. A compensation that is not positive is 0.
pub mod Lifecycle
mod Tests
use careeria.Base.{
  ℕ, ◌+◌, ◌*◌, ◌%◌, ◌^◌, ◌≡◌, Bool, true, false, not, ◌&&◌, ◌||◌, Option, none, some, [], ◌∷◌, leb,
  ltb, ◌==◌, is_empty, if◌then◌else◌, Result, ok, err,
}
use careeria.Base.Text.{Text, trim_space, byte_length}
use careeria.Domain.{Time, Duration, Uuid, before, after}

pub data Error : Type 0 where
  empty_id empty_application_id invalid_compensation invalid_currency empty_grade : Error
  invalid_expiration invalid_status offer_expired offer_not_expired : Error

pub data OfferStatus : Type 0 where
  draft sent accepted declined expired revoked : OfferStatus
  other_status : Text → OfferStatus

abbrev pub valid_status : OfferStatus → Bool
valid_status (other_status s) = false
valid_status _ = true

abbrev pub is_terminal : OfferStatus → Bool
is_terminal accepted = true
is_terminal declined = true
is_terminal expired = true
is_terminal revoked = true
is_terminal _ = false

abbrev pub is_draft : OfferStatus → Bool
is_draft draft = true
is_draft _ = false

abbrev pub is_sent : OfferStatus → Bool
is_sent sent = true
is_sent _ = false

all_upper : Text → Bool
all_upper [] = true
all_upper (c ∷ s) = not (ltb c b'A' || ltb b'Z' c) && all_upper s

unfoldable pub valid_currency : Text → Bool
unfolding all_upper byte_length
valid_currency c = byte_length c == 3 && all_upper c

-- 24 hours in nanoseconds.
abbrev pub min_offer_duration : Duration
min_offer_duration = 24 * 3_600_000_000_000

-- `version` is an int64, as its 64-bit pattern.
pub record JobOffer : Type 0 where
  pub id : Uuid
  pub application_id : Uuid
  pub compensation : ℕ
  pub currency : Text
  pub grade : Text
  pub status : OfferStatus
  pub expires_at : Time
  pub version : ℕ
  pub created_at : Time
  pub updated_at : Time

unfoldable pub create : Uuid → Uuid → ℕ → Text → Text → Time → Time → Result Error JobOffer
create id application_id compensation currency grade expires_at now =
    let grade = trim_space grade in
    if id == 0
    then err empty_id
    else if application_id == 0
    then err empty_application_id
    else if leb compensation 0
    then err invalid_compensation
    else if not (valid_currency currency)
    then err invalid_currency
    else if is_empty grade
    then err empty_grade
    else if before expires_at (now + min_offer_duration)
    then err invalid_expiration
    else ok (record {
      id = id;
      application_id = application_id;
      compensation = compensation;
      currency = currency;
      grade = grade;
      status = draft;
      expires_at = expires_at;
      version = 1;
      created_at = now;
      updated_at = now;
    })

abbrev pub is_expired : JobOffer → Time → Bool
is_expired o now = after now o.expires_at || now == o.expires_at

-- `o.Status = status; o.Version++; o.UpdatedAt = now`
abbrev pub set_status : JobOffer → OfferStatus → Time → JobOffer
set_status o status now = record o {
  status = status;
  version = (o.version + 1) % 2 ^ 64;
  updated_at = now;
}

unfoldable pub send : JobOffer → Time → JobOffer × Option Error
send o now =
    if not (is_draft o.status)
    then (o, some invalid_status)
    else if is_expired o now
    then (set_status o expired now, some offer_expired)
    else (set_status o sent now, none)

unfoldable pub accept : JobOffer → Time → JobOffer × Option Error
accept o now =
    if not (is_sent o.status)
    then (o, some invalid_status)
    else if is_expired o now
    then (set_status o expired now, some offer_expired)
    else (set_status o accepted now, none)

unfoldable pub decline : JobOffer → Text → Time → JobOffer × Option Error
decline o reason now =
    if not (is_sent o.status) then (o, some invalid_status) else (set_status o declined now, none)

unfoldable pub revoke : JobOffer → Text → Time → JobOffer × Option Error
revoke o reason now =
    if not (is_draft o.status) && not (is_sent o.status)
    then (o, some invalid_status)
    else (set_status o revoked now, none)

unfoldable pub expire : JobOffer → Time → JobOffer × Option Error
expire o now =
    if not (is_sent o.status)
    then (o, some invalid_status)
    else if not (is_expired o now)
    then (o, some offer_not_expired)
    else (set_status o expired now, none)
