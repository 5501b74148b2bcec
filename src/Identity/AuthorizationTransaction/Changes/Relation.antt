-- ===== src/Identity/AuthorizationTransaction/Changes/Relation.antt =====
-- One change of an authorization transaction, as a relation between states:
-- services/identity/internal/domain/authorizationtransaction.
use careeria.Base.{
  ◌≡◌, ◌≢◌, ◌<◌, ◌⊎◌, Bool, true, false, ◌||◌, Option, none, some, List, [], ◌∷◌, ◌++◌, is_some,
  is_empty, ok, contains,
}
use careeria.Base.Text.{Text}
use careeria.Domain.{Time, Uuid}
use careeria.Identity.Authentication.{Method, password, Level, valid_method, method_comparable}
use careeria.Identity.AuthorizationTransaction.Step.{
  NextStep, choose_authentication_method, password_change, email_verification, phone_verification,
  mfa_enrollment, mfa, consent, ready, step_equal, can_transition_to, status_ready,
  status_completed, status_denied, VerificationChannel, email, phone, channel_equal,
  VerificationReference, AuthorizationSource,
}
use careeria.Identity.AuthorizationTransaction.Calls.{
  Call, authenticates, passes_mfa, changes_password, verifies_email, verifies_phone, binds_email,
  binds_phone, registers, skips_enrollment, completes, denies, authorizes,
}
use careeria.Identity.AuthorizationTransaction.{
  Error, AuthorizationTransaction, is_pending, is_ready, finish, ensure_granted_scopes_allowed,
}
use careeria.Identity.AuthorizationTransaction.Authenticating.{
  resolve_authentication_completion, complete_authentication,
}

abbrev pub moved_to : AuthorizationTransaction → NextStep → AuthorizationTransaction
moved_to t step = record t { next_step = step }

abbrev pub is_verification : NextStep → Bool
is_verification step = step_equal step email_verification || step_equal step phone_verification

-- The time of a call is known and before the expiry of the transaction.
abbrev pub IsInTime : AuthorizationTransaction → Time → Type 0
IsInTime t now = (0 < now) × (now < t.expires_at)

-- The call authenticates an identity at a step by a method, and goes on to another step.
abbrev pub Authenticates : Call → NextStep → Uuid → Method → NextStep → Type 0
Authenticates c step id m next =
    ((c ≡ authenticates id m next) × (step ≡ choose_authentication_method))
    ⊎ ((c ≡ passes_mfa id m) × (step ≡ mfa) × (next ≡ consent))

-- The call passes a step that needs no further fact.
abbrev pub Passes : Call → NextStep → NextStep → Type 0
Passes c step next =
    ((c ≡ changes_password next) × (step ≡ password_change))
    ⊎ ((c ≡ skips_enrollment) × (step ≡ mfa_enrollment) × (next ≡ consent))

abbrev pub Verifies : Call → NextStep → VerificationChannel → NextStep → Type 0
Verifies c step channel next =
    ((c ≡ verifies_email next) × (step ≡ email_verification) × (channel ≡ email))
    ⊎ ((c ≡ verifies_phone next) × (step ≡ phone_verification) × (channel ≡ phone))

abbrev pub Binds : Call → NextStep → VerificationReference → Type 0
Binds c step v =
    ((c ≡ binds_email v.contact_id v.challenge_id v.expires_at)
      × (step ≡ email_verification)
      × (v.channel ≡ email))
    ⊎ ((c ≡ binds_phone v.contact_id v.challenge_id v.expires_at)
        × (step ≡ phone_verification)
        × (v.channel ≡ phone))

-- When a call authenticates: it comes in time and at its step, the method is known and was not used
-- before, and the identity is the one that was authenticated before, if any.
pub record Authenticated (t : AuthorizationTransaction) (c : Call) (now : Time) (id : Uuid)
    (m : Method) (next : NextStep) : Type 0 where
  pub step : NextStep
  pub asked : Authenticates c step id m next
  pub in_time : IsInTime t now
  pub here : step_equal t.next_step step ≡ true
  pub known : valid_method m ≡ true
  pub same : (t.identity_id ≡ none) ⊎ (t.identity_id ≡ some id)
  pub unused : contains t.authenticated_methods m ≡ false

pub record Passed (t : AuthorizationTransaction) (c : Call) (now : Time) (next : NextStep)
    : Type 0 where
  pub step : NextStep
  pub asked : Passes c step next
  pub in_time : IsInTime t now
  pub here : step_equal t.next_step step ≡ true

-- When a call verifies: the challenge that is bound is of its channel and has not expired.
pub record Verified (t : AuthorizationTransaction) (c : Call) (now : Time) (next : NextStep)
    : Type 0 where
  pub step : NextStep
  pub channel : VerificationChannel
  pub reference : VerificationReference
  pub asked : Verifies c step channel next
  pub in_time : IsInTime t now
  pub here : step_equal t.next_step step ≡ true
  pub bound : t.verification ≡ some reference
  pub of_channel : channel_equal reference.channel channel ≡ true
  pub unexpired : now < reference.expires_at

pub record Bound (t : AuthorizationTransaction) (c : Call) (now : Time) (v : VerificationReference)
    : Type 0 where
  pub step : NextStep
  pub asked : Binds c step v
  pub in_time : IsInTime t now
  pub here : step_equal t.next_step step ≡ true
  pub later : now < v.expires_at
  pub contact_known : v.contact_id ≢ 0
  pub challenge_known : v.challenge_id ≢ 0

pub record Registered (t : AuthorizationTransaction) (c : Call) (now : Time) (id : Uuid)
    (step : NextStep) : Type 0 where
  pub asked : c ≡ registers id step
  pub in_time : IsInTime t now
  pub nobody : is_some t.identity_id ≡ false
  pub no_method : is_empty t.authenticated_methods ≡ true

pub record Asked (t : AuthorizationTransaction) (c expected : Call) (now : Time) : Type 0 where
  pub asked : c ≡ expected
  pub in_time : IsInTime t now

-- One change of a transaction by a call at a time, with all that its method has tested.
pub data Change (t : AuthorizationTransaction) (c : Call) (now : Time)
    : AuthorizationTransaction → Type 0 where
  authenticate :
      (id : Uuid) (m : Method) (next : NextStep)
      → Authenticated t c now id m next
      → (level : Option Level) → is_pending t.status ≡ true
      → is_some t.authentication_level ≡ false
      → id ≢ 0
      → resolve_authentication_completion (t.authenticated_methods ++ m ∷ []) next ≡ ok level
      → can_transition_to t.next_step next ≡ true
      → Change t c now (
          complete_authentication
            (record t {
              next_step = next;
              identity_id = some id;
              authenticated_methods = t.authenticated_methods ++ m ∷ [];
            })
            level
            now)
  pass :
      (next : NextStep)
      → Passed t c now next
      → (level : Option Level) → is_pending t.status ≡ true
      → is_some t.authentication_level ≡ false
      → is_some t.identity_id ≡ true
      → resolve_authentication_completion t.authenticated_methods next ≡ ok level
      → can_transition_to t.next_step next ≡ true
      → Change t c now (complete_authentication (moved_to t next) level now)
  verify :
      (next : NextStep)
      → Verified t c now next
      → (level : Option Level) → is_pending t.status ≡ true
      → is_some t.authentication_level ≡ false
      → is_some t.identity_id ≡ true
      → is_some t.verification ≡ true
      → resolve_authentication_completion t.authenticated_methods next ≡ ok level
      → can_transition_to t.next_step next ≡ true
      → Change t c now
          (record (complete_authentication (moved_to t next) level now) { verification = none })
  bind :
      (v : VerificationReference)
      → Bound t c now v
      → is_pending t.status ≡ true
      → is_some t.verification ≡ false
      → is_verification t.next_step ≡ true
      → Change t c now (record t { verification = some v })
  register :
      (id : Uuid) (step : NextStep)
      → Registered t c now id step
      → is_pending t.status ≡ true
      → step_equal t.next_step choose_authentication_method ≡ true
      → id ≢ 0
      → is_verification step ≡ true
      → can_transition_to t.next_step step ≡ true
      → Change t c now (record t {
        next_step = step;
        identity_id = some id;
        authenticated_methods = password ∷ [];
      })
  authorize :
      (granted : List Text) (source : AuthorizationSource)
      → Asked t c (authorizes granted source) now
      → is_pending t.status ≡ true
      → step_equal t.next_step consent ≡ true
      → is_some t.authentication_level ≡ true
      → is_empty granted ≡ false
      → ensure_granted_scopes_allowed t granted ≡ none
      → Change t c now (record t {
        next_step = ready;
        granted_scopes = granted;
        authorization_source = some source;
        status = status_ready;
      })
  completed :
      Asked t c completes now
      → is_ready t.status ≡ true
      → step_equal t.next_step ready ≡ true
      → is_some t.identity_id ≡ true
      → is_some t.authentication_level ≡ true
      → is_some t.authenticated_at ≡ true
      → Change t c now (finish t status_completed)
  denied :
      Asked t c denies now → is_pending t.status ≡ true → Change t c now (finish t status_denied)

-- A call changes the transaction as the relation allows, or reports an error and leaves it.
pub data Outcome (t : AuthorizationTransaction) (c : Call) (now : Time)
    : AuthorizationTransaction × Option Error → Type 0 where
  refused : (e : Error) → Outcome t c now (t, some e)
  changed : {u : AuthorizationTransaction} → Change t c now u → Outcome t c now (u, none)
