-- ===== src/Hiring/OfferService/Tests.antt =====
-- A store in memory, with an offer that is accepted and another that is expired.
use careeria.Base.{
  ◌≡◌, inl, refl, ap, ◌∙◌, ℕ, true, none, some, List, [], ◌∷◌, if◌then◌else◌, Result, ok, err, ◌==◌,
  arith,
}
use careeria.Base.Text.{codes}
use careeria.Domain.{Uuid}
use careeria.Hiring.Application.Stage.{offer_pending, can_transition_to}
use careeria.Hiring.Application.Transition.{new_stage_transition}
use careeria.Hiring.Application.{JobApplication, change_stage}
use careeria.Hiring.Offer.{JobOffer, draft, sent, expired, accept}
use careeria.Hiring.OfferService.{LoadError, not_found, OfferEvent, Ports, accept_offer}
use careeria.Packages.Transactions.{Atomic}
use careeria.Hiring.OfferService.Accepting.{Laws, IsAccepted, accept_offer-IsAccepted}

record Memory : Type 0 where
  offers : Uuid → Result LoadError JobOffer
  applications : Uuid → Result LoadError JobApplication
  messages : List OfferEvent

abbrev put {ℓ} : {A : Type ℓ} → (Uuid → A) → Uuid → A → Uuid → A
put f key a id = if id == key then a else f id

abbrev memory_ports : Ports Memory OfferEvent ℕ
memory_ports = record {
  get_offer = λ s id. s.offers id;
  get_application = λ s id. s.applications id;
  update_offer = λ s o. some (record s { offers = put s.offers o.id (ok o) });
  update_application = λ s a. some (record s { applications = put s.applications a.id (ok a) });
  save_message = λ s m. some (record s { messages = m ∷ s.messages });
  can_manage = λ actor application. true;
  can_respond = λ actor application. true;
  create_message = λ event id version now. some event;
  driver = record { begin = λ s. none; commit = λ s w. (w, none); rollback = λ s w. (s, none) };
}

put_found {ℓ} : {A : Type ℓ} (f : Uuid → A) (key : Uuid) (a : A) → put f key a key ≡ a
put_found f key a = rw (same key) refl
  where
    same : (n : ℕ) → (n == n) ≡ true
    same n = ground arith

stored_as : {s t : Memory} → some s ≡ some t → t ≡ s
stored_as e = cc e

memory-Atomic : Atomic memory_ports.driver
memory-Atomic = record {
  committed = λ s w e. refl;
  commit_whole = λ s w. inl refl;
  rolled_back = λ s w. refl;
}

memory_laws : Laws memory_ports
memory_laws = record {
  transactions = memory-Atomic;
  offer_updated =
      λ {s} {t} {o} e. ap (λ u. u.offers o.id) (stored_as e) ∙ put_found s.offers o.id (ok o);
  application_updated = λ {s} {t} {a} e.
      ap (λ u. u.applications a.id) (stored_as e) ∙ put_found s.applications a.id (ok a);
  offer_kept = λ id e. ap (λ u. u.offers id) (stored_as e);
  offer_kept_by_message = λ id e. ap (λ u. u.offers id) (stored_as e);
  application_kept_by_message = λ id e. ap (λ u. u.applications id) (stored_as e);
}

abbrev draft_offer : JobOffer
draft_offer = record {
  id = 1;
  application_id = 2;
  compensation = 100;
  currency = codes "EUR";
  grade = codes "senior";
  status = draft;
  expires_at = 500;
  version = 1;
  created_at = 10;
  updated_at = 10;
}

abbrev application : JobApplication
application = record {
  id = 2;
  vacancy_id = 3;
  candidate_id = 4;
  current_stage = offer_pending;
  version = 4;
  history = [];
  created_at = 10;
  updated_at = 10;
}

abbrev with_offer : JobOffer → Memory
with_offer o = record {
  offers = put (λ id. err not_found) 1 (ok o);
  applications = put (λ id. err not_found) 2 (ok application);
  messages = [];
}

abbrev before_accept : Memory
before_accept = with_offer (record draft_offer { status = sent; version = 2 })

abbrev after_accept : Memory
after_accept = (accept_offer memory_ports before_accept 1 100 9 50).0

accepted_run : accept_offer memory_ports before_accept 1 100 9 50 ≡ (after_accept, none)
unfolding accept_offer accept change_stage can_transition_to new_stage_transition
accepted_run = refl

abbrev expired_offer : JobOffer
expired_offer = record draft_offer { status = expired }

abbrev with_expired : Memory
with_expired = record before_accept { offers = put before_accept.offers 5 (ok expired_offer) }

accept_offer-IsAccepted_example :
    IsAccepted memory_ports memory_laws before_accept after_accept 1 9 100 50
accept_offer-IsAccepted_example =
    accept_offer-IsAccepted memory_ports memory_laws before_accept after_accept 1 100 9 50
      accepted_run
