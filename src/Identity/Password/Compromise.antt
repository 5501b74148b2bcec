-- ===== src/Identity/Password/Compromise.antt =====
-- What closes a password and what opens it: services/identity/internal/domain/password.
use careeria.Base.{
  ◌≡◌, ◌≤◌, ◌<◌, Bool, true, false, Option, none, List, [], ◌∷◌, All, is_some, Result, ok, arith,
}
use careeria.Base.Guards.{checked, settled}
use careeria.Base.Text.{Text}
use careeria.Domain.{Time}
use careeria.Identity.Password.Attempts.{Error, FailurePolicy, reset}
use careeria.Identity.Password.Attempts as attempts
use careeria.Identity.Password.Secret.{Credential, ends_before, has_expired}
use careeria.Identity.Password.Secret as secret
use careeria.Identity.Password.{
  Password, latest_updated_at, ensure_change_allowed, ensure_authentication_allowed, change,
  require_change, mark_compromised, record_successful_authentication, unlock,
}
use careeria.Identity.Password.Calls.{
  Call, fails, changes, succeeds, requires_change, is_compromised, unlocks, perform, run,
}
use careeria.Identity.Password.Lockout.{Guess, refused, counts, locks, record_failed_attempt-Guess}

abbrev pub KeepsSecret : Call → Type 0
KeepsSecret (changes hash must_change expires_at) = ⊥
KeepsSecret _ = Unit

abbrev IsCompromised : Password → Type 0
IsCompromised p = is_some p.credential.compromised_at ≡ true

guess_closed :
    (p : Password) (policy : FailurePolicy) (now : Time) (r : Password × Result Error Bool)
    → Guess p policy now r
    → IsCompromised p
    → IsCompromised r.0
guess_closed p policy now _ (refused e) closed = closed
guess_closed p policy now _ (counts free order room) closed = closed
guess_closed p policy now _ (locks free order full) closed = closed

require_keeps :
    (c : Credential) (now : Time) (r : Credential × Bool)
    → is_some c.compromised_at ≡ true
    → secret.require_change c now ≡ ok r
    → is_some r.0.compromised_at ≡ true
unfolding secret.require_change
require_keeps c now r closed made = ground arith

mark_keeps :
    (c : Credential) (now : Time) (r : Credential × Bool)
    → is_some c.compromised_at ≡ true
    → secret.mark_compromised c now ≡ ok r
    → is_some r.0.compromised_at ≡ true
unfolding secret.mark_compromised
mark_keeps c now r closed made = ground arith

module _ (p : Password) (now : Time) (closed : IsCompromised p) where
  abbrev StillCompromised : Password × Option Error → Type 0
  StillCompromised r = IsCompromised r.0

  succeeds_closed : IsCompromised (record_successful_authentication p now).0
  unfolding record_successful_authentication
  succeeds_closed =
      checked StillCompromised (ensure_change_allowed p now) _ _ (λ e. closed)
        (λ a.
          checked StillCompromised (ensure_authentication_allowed p now) _ _ (λ e. closed)
            (λ b. closed))

  require_change_closed : IsCompromised (require_change p now).0
  unfolding require_change
  require_change_closed =
      checked StillCompromised (ensure_change_allowed p now) _ _ (λ e. closed)
        (λ a.
          settled StillCompromised (secret.require_change p.credential now) _ _ (λ e. closed)
            (λ r made. require_keeps p.credential now r closed made))

  mark_compromised_closed : IsCompromised (mark_compromised p now).0
  unfolding mark_compromised
  mark_compromised_closed =
      checked StillCompromised (ensure_change_allowed p now) _ _ (λ e. closed)
        (λ a.
          settled StillCompromised (secret.mark_compromised p.credential now) _ _ (λ e. closed)
            (λ r made. mark_keeps p.credential now r closed made))

  unlock_closed : IsCompromised (unlock p now).0
  unfolding unlock
  unlock_closed =
      checked StillCompromised (ensure_change_allowed p now) _ _ (λ e. closed) (λ a. closed)

perform_closed :
    (p : Password) (c : Call) (now : Time)
    → KeepsSecret c
    → IsCompromised p
    → IsCompromised (perform p c now)
unfolding perform
perform_closed p (fails policy) now kept closed =
    guess_closed p policy now _ (record_failed_attempt-Guess p policy now) closed
perform_closed p (changes hash must_change expires_at) now kept closed = absurd kept
perform_closed p succeeds now kept closed = succeeds_closed p now closed
perform_closed p requires_change now kept closed = require_change_closed p now closed
perform_closed p is_compromised now kept closed = mark_compromised_closed p now closed
perform_closed p unlocks now kept closed = unlock_closed p now closed

closed_refused :
    (p : Password) (now : Time)
    → IsCompromised p
    → is_some (ensure_authentication_allowed p now) ≡ true
unfolding ensure_authentication_allowed attempts.validate_for_authentication
    secret.validate_for_authentication
closed_refused p now closed = ground arith

-- A compromised password authenticates nobody, at any time, whatever calls other than `Change`
-- follow: neither an unlock nor a later success opens it.
pub compromised_until_changed :
    (p : Password) (cs : List (Call × Time)) (later : Time)
    → is_some p.credential.compromised_at ≡ true
    → All (λ c. KeepsSecret c.0) cs
    → is_some (ensure_authentication_allowed (run p cs) later) ≡ true
unfolding run
compromised_until_changed p [] later closed kept = closed_refused p later closed
compromised_until_changed p ((c, now) ∷ cs) later closed kept =
    compromised_until_changed (perform p c now) cs later (perform_closed p c now kept.0 closed)
      kept.1

changed_secret :
    (c d : Credential) (hash : Text) (must_change : Bool) (expires_at : Option Time) (now : Time)
    → secret.change c hash must_change expires_at now ≡ ok d
    → (d.compromised_at ≡ none) × (d.expires_at ≡ expires_at) × (d.updated_at ≡ now) × (0 < now)
unfolding secret.change
changed_secret c d hash must_change expires_at now made = ground arith

opens :
    (p : Password) (d : Credential) (now later : Time)
    → d.compromised_at ≡ none
    → has_expired d.expires_at later ≡ false
    → d.updated_at ≡ now
    → 0 < now
    → now ≤ later
    → ensure_authentication_allowed (record p { credential = d; auth_state = reset now }) later
      ≡ none
unfolding ensure_authentication_allowed attempts.validate_for_authentication
    secret.validate_for_authentication latest_updated_at reset
opens p d now later safe live at positive order = ground arith

-- A change of the password opens it, however it was closed: until the new expiry, authentication is
-- allowed from then on.
change_opens :
    (p q : Password) (hash : Text) (must_change : Bool) (expires_at : Option Time)
    (now later : Time)
    → change p hash must_change expires_at now ≡ (q, none)
    → now ≤ later
    → has_expired expires_at later ≡ false
    → ensure_authentication_allowed q later ≡ none
unfolding change
change_opens p q hash must_change expires_at now later done order live =
    checked P (ensure_change_allowed p now) _ _ (λ e h. cc h)
      (λ allowed.
        settled P (secret.change p.credential hash must_change expires_at now) _ _ (λ e h. cc h)
          (λ d made h.
            let (safe, ends, at, positive) =
              changed_secret p.credential d hash must_change expires_at now made in
            let open_then = opens p d now later safe (rw ends live) at positive order in
            let same : q ≡ record p { credential = d; auth_state = reset now } = cc h in
            rw same open_then))
      done
  where
    P : Password × Option Error → Type 0
    P r = r ≡ (q, none) → ensure_authentication_allowed q later ≡ none
