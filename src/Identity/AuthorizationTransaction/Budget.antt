-- ===== src/Identity/AuthorizationTransaction/Budget.antt =====
-- How many changes an authorization transaction can see.
use careeria.Base.{
  ℕ, ◌+◌, ◌≤◌, ◌<◌, ◌≡◌, Bool, true, false, Option, List, [], ◌∷◌, if◌then◌else◌, is_some, arith,
  ok,
}
use careeria.Base.Text.{Text}
use careeria.Domain.{Time, Uuid}
use careeria.Identity.AuthorizationTransaction.Step.{
  NextStep, choose_authentication_method, password_change, email_verification, phone_verification,
  mfa_enrollment, mfa, consent, ready, other_step, can_transition_to, status_pending, status_ready,
}
use careeria.Identity.AuthorizationTransaction.{Error, Pkce, AuthorizationTransaction, new}
use careeria.Identity.AuthorizationTransaction.Calls.{Call, perform, run}
use careeria.Identity.AuthorizationTransaction.Changes.{
  Change, authenticate, pass, verify, bind, register, authorize, completed, denied, Outcome,
  refused, changed, perform-Outcome,
}

-- How many changes a step may still see, a verification that waits to be bound included.
abbrev left : NextStep → Bool → ℕ
left choose_authentication_method bound = 9
left password_change bound = 8
left email_verification false = 7
left email_verification true = 6
left phone_verification false = 5
left phone_verification true = 4
left mfa_enrollment bound = 3
left mfa bound = 3
left consent bound = 2
left ready bound = 1
left (other_step s) bound = 1

transition-left : (s t : NextStep) (a b : Bool) → can_transition_to s t ≡ true → left t a < left s b
unfolding can_transition_to
transition-left s t a b h = ground arith

-- How many changes a transaction may still see.
abbrev budget : AuthorizationTransaction → ℕ
budget t = elim t.status as (λ s. ℕ) [
  | status_pending ↦ left t.next_step (is_some t.verification)
  | status_ready ↦ 1
  | _ ↦ 0
]

Change-budget :
    {t u : AuthorizationTransaction} {c : Call} {now : Time}
    → Change t c now u
    → budget u < budget t
Change-budget {t} (authenticate id m next s level p l i r edge) =
    ground
      (arith, transition-left t.next_step next (is_some t.verification) (is_some t.verification))
Change-budget {t} (pass next s level p l i r edge) =
    ground
      (arith, transition-left t.next_step next (is_some t.verification) (is_some t.verification))
Change-budget {t} (verify next s level p l i v r edge) =
    ground (arith, transition-left t.next_step next false (is_some t.verification))
Change-budget (bind v s p free here) = ground arith
Change-budget {t} (register id step s p here i verifies edge) =
    ground
      (arith, transition-left t.next_step step (is_some t.verification) (is_some t.verification))
Change-budget (authorize granted source s p here l g a) = ground arith
Change-budget (completed s r here i l at) = ground arith
Change-budget (denied s p) = ground arith

Outcome-budget :
    (t : AuthorizationTransaction) (c : Call) (now : Time)
    (r : AuthorizationTransaction × Option Error)
    → Outcome t c now r
    → budget r.0 + (if is_some r.1 then 0 else 1) ≤ budget t
Outcome-budget t c now _ (refused e) = omega arith
Outcome-budget t c now _ (changed x) = omega (arith, Change-budget x)

run-budget :
    (t : AuthorizationTransaction) (cs : List (Call × Time))
    → budget (run t cs).0 + (run t cs).1 ≤ budget t
unfolding run
run-budget t [] = omega arith
run-budget t ((c, now) ∷ cs) = ground (
  arith,
  Outcome-budget t c now (perform t c now) (perform-Outcome t c now),
  run-budget (perform t c now).0 cs,
)

-- Every sign-in ends: of all calls on a new transaction, in whatever order and at whatever times,
-- at most nine succeed.
pub new-run-le :
    (id client : Uuid) (uri : Text) (requested : List Text) (state oidc_nonce : Option Text)
    (require_pkce : Bool) (pkce : Option Pkce) (expires now : Time) (t : AuthorizationTransaction)
    (cs : List (Call × Time))
    → new id client uri requested state oidc_nonce require_pkce pkce expires now ≡ ok t
    → (run t cs).1 ≤ 9
unfolding new
new-run-le id client uri requested state oidc_nonce require_pkce pkce expires now t cs made =
    let start : budget t ≡ 9 = ground arith in omega (arith, start, run-budget t cs)
