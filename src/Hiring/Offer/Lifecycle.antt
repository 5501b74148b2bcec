-- ===== src/Hiring/Offer/Lifecycle.antt =====
-- The life of an offer: sequences of calls of services/hiring/internal/domain/offer/offer.go.
use careeria.Base.{
  ℕ, ◌+◌, ◌%◌, ◌^◌, ◌≤◌, ◌<◌, ◌≡◌, ◌≢◌, ◌⊎◌, inl, inr, ap, Option, none, List, [], ◌∷◌, arith, ok,
}
use careeria.Base.Text.{Text}
use careeria.Domain.{Time, Uuid}
use careeria.Hiring.Offer.{
  Error, OfferStatus, draft, sent, accepted, declined, expired, revoked, JobOffer, create, send,
  accept, decline, revoke, expire,
}

pub data Call : Type 0 where
  sends accepts expires : Call
  declines revokes : Text → Call

pub perform : JobOffer → Call → Time → JobOffer × Option Error
perform o sends now = send o now
perform o accepts now = accept o now
perform o expires now = expire o now
perform o (declines reason) now = decline o reason now
perform o (revokes reason) now = revoke o reason now

infix 40 ◌⟶◌
pub data ◌⟶◌ : OfferStatus → OfferStatus → Type 0 where
  send_draft : draft ⟶ sent
  send_late : draft ⟶ expired
  revoke_draft : draft ⟶ revoked
  accept_sent : sent ⟶ accepted
  lapse : sent ⟶ expired
  decline_sent : sent ⟶ declined
  revoke_sent : sent ⟶ revoked

ruleset edges = (send_draft, send_late, revoke_draft, accept_sent, lapse, decline_sent, revoke_sent)

-- Each call leaves the offer as it was and reports an error, or moves its status along an edge of
-- the life cycle, counts one version up, stamps the time and changes no other field.
perform_cases :
    (o : JobOffer) (c : Call) (now : Time)
    → let (p, e) = perform o c now in
      ((p ≡ o) × (e ≢ none))
      ⊎ ((o.status ⟶ p.status)
          × (p ≡ record o {
            status = p.status;
            version = (o.version + 1) % 2 ^ 64;
            updated_at = now;
          }))
unfolding perform send accept decline revoke expire
perform_cases o sends now = grind (arith, edges)
perform_cases o accepts now = grind (arith, edges)
perform_cases o expires now = grind (arith, edges)
perform_cases o (declines reason) now = grind (arith, edges)
perform_cases o (revokes reason) now = grind (arith, edges)

-- When `Accept` returns no error, the offer was sent, the call comes before it expires, and it is
-- left accepted.
accept_in_time :
    (o : JobOffer) (now : Time)
    → (accept o now).1 ≡ none
    → (o.status ≡ sent) × (now < o.expires_at) × ((accept o now).0.status ≡ accepted)
unfolding accept
accept_in_time o now h = ground arith

pub run : JobOffer → List (Call × Time) → JobOffer
run o [] = o
run o ((c, now) ∷ cs) = run (perform o c now).0 cs

-- How many changes a status may still see.
abbrev left : OfferStatus → ℕ
left draft = 2
left sent = 1
left _ = 0

⟶-left : {s t : OfferStatus} → s ⟶ t → left t + 1 ≤ left s
⟶-left send_draft = omega arith
⟶-left send_late = omega arith
⟶-left revoke_draft = omega arith
⟶-left accept_sent = omega arith
⟶-left lapse = omega arith
⟶-left decline_sent = omega arith
⟶-left revoke_sent = omega arith

perform-budget :
    (o : JobOffer) (c : Call) (now : Time)
    → let p = (perform o c now).0 in o.version + left o.status ≤ 3 → p.version + left p.status ≤ 3
perform-budget o c now h = go (perform_cases o c now)
  where
    go :
        ((((perform o c now).0 ≡ o) × ((perform o c now).1 ≢ none))
          ⊎ ((o.status ⟶ (perform o c now).0.status)
              × ((perform o c now).0 ≡ record o {
                status = (perform o c now).0.status;
                version = (o.version + 1) % 2 ^ 64;
                updated_at = now;
              })))
        → (perform o c now).0.version + left (perform o c now).0.status ≤ 3
    go (inl (same, _)) = rw same h
    go (inr (edge, e)) = omega (arith, ⟶-left edge, ap (λ q. q.version) e)

run-budget :
    (o : JobOffer) (cs : List (Call × Time))
    → o.version + left o.status ≤ 3
    → (run o cs).version + left (run o cs).status ≤ 3
unfolding run
run-budget o [] h = h
run-budget o ((c, now) ∷ cs) h = run-budget (perform o c now).0 cs (perform-budget o c now h)

-- Whatever calls follow the creation of an offer, its version is at most 3, so that the int64
-- never wraps.
create-run-version :
    (id application_id : Uuid) (compensation : ℕ) (currency grade : Text) (expires_at now : Time)
    (o : JobOffer) (cs : List (Call × Time))
    → create id application_id compensation currency grade expires_at now ≡ ok o
    → (run o cs).version ≤ 3
unfolding create
create-run-version id application_id compensation currency grade expires_at now o cs made =
    let start : o.version + left o.status ≤ 3 = ground arith in omega (arith, run-budget o cs start)
