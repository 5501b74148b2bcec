-- ===== src/Identity/Session/Expiry.antt =====
-- Sequences of calls on a session of services/identity/internal/domain/session/session.go.
use careeria.Base.{◌≤◌, ◌<◌, ◌≡◌, ◌≢◌, ◌↔◌, refl, Option, none, List, [], ◌∷◌, arith, ok}
use careeria.Base.Text.{Text}
use careeria.Domain.{Time, Uuid}
use careeria.Identity.Authentication.{Method, Level}
use careeria.Identity.Session.{
  Session, new, latest_changed_at, validate_for_use, record_activity, revoke,
}

pub data Call : Type 0 where
  sees : Time → Call
  revokes : Text → Call

pub perform : Session → Call → Time → Session
perform s (sees idle_expires_at) now = (record_activity s now idle_expires_at).0
perform s (revokes reason) now = (revoke s reason now).0

pub run : Session → List (Call × Time) → Session
run s [] = s
run s ((c, now) ∷ cs) = run (perform s c now) cs

-- The expiries: the absolute one as it was set, the idle one never earlier than it was and never
-- past the absolute one.
pub Bounded : Session → Session → Type 0
Bounded s s' =
    (s'.absolute_expires_at ≡ s.absolute_expires_at)
    × (s.idle_expires_at ≤ s'.idle_expires_at)
    × (s'.idle_expires_at ≤ s'.absolute_expires_at)

perform-Bounded :
    (s : Session) (c : Call) (now : Time)
    → s.idle_expires_at ≤ s.absolute_expires_at
    → Bounded s (perform s c now)
unfolding perform record_activity revoke validate_for_use Bounded
perform-Bounded s (sees e) now h = ground arith
perform-Bounded s (revokes r) now h = ground arith

run-Bounded :
    (s : Session) (cs : List (Call × Time))
    → s.idle_expires_at ≤ s.absolute_expires_at
    → Bounded s (run s cs)
unfolding run Bounded
run-Bounded s [] h = ground arith
run-Bounded s ((c, now) ∷ cs) h =
    let first = perform-Bounded s c now h in
    let rest = run-Bounded (perform s c now) cs first.2 in
    omega (arith, first.0, first.1, rest.0, rest.1, rest.2)

-- Whatever calls follow its creation, a session keeps the absolute expiry that it was created with,
-- and its idle expiry only moves later, up to the absolute one.
pub new-run-expiry :
    (id identity_id client : Uuid) (level : Level) (methods : List Method) (scopes : List Text)
    (ip user_agent device : Option Text) (authenticated_at idle absolute now : Time) (s : Session)
    (cs : List (Call × Time))
    → new id identity_id client level methods scopes ip user_agent device authenticated_at idle
        absolute now
      ≡ ok s
    → ((run s cs).absolute_expires_at ≡ absolute)
      × (idle ≤ (run s cs).idle_expires_at)
      × ((run s cs).idle_expires_at ≤ absolute)
unfolding new Bounded
new-run-expiry id identity_id client level methods scopes ip user_agent device authenticated_at idle
      absolute now s cs made =
    let start : (s.idle_expires_at ≡ idle)
        × (s.absolute_expires_at ≡ absolute)
        × (idle ≤ absolute) =
      ground arith in
    let rest = run-Bounded s cs (omega (arith, start.0, start.1, start.2)) in
    omega (arith, start.0, start.1, start.2, rest.0, rest.1, rest.2)

-- A session is fit for use exactly from its last change until both its expiries, at an instant that
-- is not zero, and never once it is revoked.
validate_for_use_iff :
    (s : Session) (now : Time)
    → (validate_for_use s now ≡ none) ↔ (
        (0 < now)
        × (latest_changed_at s ≤ now)
        × (s.revoked_at ≡ none)
        × (now < s.absolute_expires_at)
        × (now < s.idle_expires_at))
unfolding validate_for_use
validate_for_use_iff s now = (λ h. ground arith, λ h. ground arith)

perform-revoked : (s : Session) (c : Call) (now : Time) → s.revoked_at ≢ none → perform s c now ≡ s
unfolding perform record_activity revoke validate_for_use
perform-revoked s (sees e) now h = ground arith
perform-revoked s (revokes r) now h = ground arith

run-revoked : (s : Session) (cs : List (Call × Time)) → s.revoked_at ≢ none → run s cs ≡ s
unfolding run
run-revoked s [] h = refl
run-revoked s ((c, t) ∷ cs) h = rw (perform-revoked s c t h) (run-revoked s cs h)

-- A revoked session keeps every field through all further calls, and is never fit for use again.
revoked_stays :
    (s : Session) (cs : List (Call × Time)) (now : Time)
    → s.revoked_at ≢ none
    → (run s cs ≡ s) × (validate_for_use (run s cs) now ≢ none)
unfolding validate_for_use
revoked_stays s cs now h =
    (run-revoked s cs h, rw (run-revoked s cs h) (λ fit. h ((validate_for_use_iff s now).0 fit).2))
