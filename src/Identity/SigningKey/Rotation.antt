-- ===== src/Identity/SigningKey/Rotation.antt =====
-- A key through its rotation: services/identity/internal/domain/signingkey/signing_key.go.
use careeria.Base.{
  ◌≡◌, ◌≤◌, ◌<◌, refl, true, false, not, ◌||◌, Option, none, some, List, [], ◌∷◌, All, arith,
}
use careeria.Base.Guards.{guarded, checked}
use careeria.Domain.{Time, later}
use careeria.Identity.SigningKey.{
  Error, Status, retiring, is_pending, is_active, is_retiring, SigningKey, latest_lifecycle_at,
  latest_changed_at, ensure_change_allowed, has_expired, activate, start_retirement, retire,
  mark_compromised, validate_for_signing, validate_for_verification,
}

pub data Call : Type 0 where
  activates starts_retirement retires is_exposed : Call

unfoldable pub perform : SigningKey → Call → Time → SigningKey
perform k activates now = (activate k now).0
perform k starts_retirement now = (start_retirement k now).0
perform k retires now = (retire k now).0
perform k is_exposed now = (mark_compromised k now).0

unfoldable pub run : SigningKey → List (Call × Time) → SigningKey
unfolding perform
run k [] = k
run k ((c, now) ∷ cs) = run (perform k c now) cs

-- The calls that leave a key fit to verify.
abbrev pub KeepsVerifying : Call → Type 0
KeepsVerifying activates = Unit
KeepsVerifying starts_retirement = Unit
KeepsVerifying _ = ⊥

-- A key that has signed and verifies at a later time.
record Verifies (k : SigningKey) (later : Time) : Type 0 where
  in_use : (is_active k.status || is_retiring k.status) ≡ true
  changed : latest_changed_at k ≤ later
  begun : k.not_before ≤ later
  live : has_expired k.expires_at later ≡ false

signing-Verifies :
    (k : SigningKey) (now later : Time)
    → validate_for_signing k now ≡ none
    → now ≤ later
    → has_expired k.expires_at later ≡ false
    → Verifies k later × (0 < later)
unfolding validate_for_signing
signing-Verifies k now later fit order live = (
  record {
    in_use = ground (arith, fit);
    changed = ground (arith, fit, order);
    begun = ground (arith, fit, order);
    live = live;
  },
  ground (arith, fit, order),
)

Verifies-none :
    (k : SigningKey) (later : Time)
    → Verifies k later
    → 0 < later
    → validate_for_verification k later ≡ none
unfolding validate_for_verification
Verifies-none k later v positive = ground (arith, v.in_use, v.changed, v.begun, v.live, positive)

activate-Verifies :
    (k : SigningKey) (now later : Time) → Verifies k later → Verifies (activate k now).0 later
unfolding activate
activate-Verifies k now later v =
    checked P (ensure_change_allowed k now) _ _ (λ e. v)
      (λ allowed.
        guarded P (not (is_pending k.status)) _ _ v
          (λ waits. absurd (idle k.status waits v.in_use)))
  where
    P : SigningKey × Option Error → Type 0
    P r = Verifies r.0 later

    idle : (s : Status) → not (is_pending s) ≡ false → (is_active s || is_retiring s) ≡ true → ⊥
    idle s waits used = ground arith

changed_later :
    (k : SigningKey) (now later : Time)
    → now ≤ later
    → latest_changed_at k ≤ later
    → latest_changed_at (record k { status = retiring; retiring_at = some now }) ≤ later
unfolding latest_changed_at latest_lifecycle_at
changed_later k now later order changed = ground arith

start_retirement-Verifies :
    (k : SigningKey) (now later : Time)
    → now ≤ later
    → Verifies k later
    → Verifies (start_retirement k now).0 later
unfolding start_retirement
start_retirement-Verifies k now later order v =
    checked P (ensure_change_allowed k now) _ _ (λ e. v)
      (λ allowed. guarded P (not (is_active k.status)) _ _ v (λ here. record {
        in_use = refl;
        changed = changed_later k now later order v.changed;
        begun = v.begun;
        live = v.live;
      }))
  where
    P : SigningKey × Option Error → Type 0
    P r = Verifies r.0 later

perform-Verifies :
    (k : SigningKey) (c : Call) (now later : Time)
    → KeepsVerifying c
    → now ≤ later
    → Verifies k later
    → Verifies (perform k c now) later
unfolding perform
perform-Verifies k activates now later keeps order v = activate-Verifies k now later v
perform-Verifies k starts_retirement now later keeps order v =
    start_retirement-Verifies k now later order v
perform-Verifies k retires now later keeps order v = absurd keeps
perform-Verifies k is_exposed now later keeps order v = absurd keeps

run-Verifies :
    (k : SigningKey) (cs : List (Call × Time)) (later : Time)
    → All (λ c. KeepsVerifying c.0 × (c.1 ≤ later)) cs
    → Verifies k later
    → Verifies (run k cs) later
unfolding run
run-Verifies k [] later keeps v = v
run-Verifies k ((c, now) ∷ cs) later keeps v =
    run-Verifies (perform k c now) cs later keeps.1
      (perform-Verifies k c now later keeps.0.0 keeps.0.1 v)

-- What a key signs can be verified later: a key that is fit for signing at some time is fit for
-- verification at every later one before its expiry, whatever activations and beginnings of a
-- retirement come between. A rotation never breaks a signature before the key is retired.
pub signed_verifies :
    (k : SigningKey) (cs : List (Call × Time)) (now later : Time)
    → validate_for_signing k now ≡ none
    → now ≤ later
    → has_expired k.expires_at later ≡ false
    → All (λ c. KeepsVerifying c.0 × (c.1 ≤ later)) cs
    → validate_for_verification (run k cs) later ≡ none
signed_verifies k cs now later fit order live keeps =
    let (v, positive) = signing-Verifies k now later fit order live in
    Verifies-none (run k cs) later (run-Verifies k cs later keeps v) positive
