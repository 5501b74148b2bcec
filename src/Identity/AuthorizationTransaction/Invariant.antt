-- ===== src/Identity/AuthorizationTransaction/Invariant.antt =====
-- What an authorization transaction has established by the time that it is ready or completed.
use careeria.Base.{
  ◌≡◌, refl, Bool, true, false, Option, none, some, List, [], ◌∷◌, ◌++◌, is_some, is_empty, arith,
  ok, Distinct, Within, nat_comparable, list_comparable,
}
use careeria.Base.Text.{Text}
use careeria.Domain.{Time, Uuid}
use careeria.Domain.Duplicates.{has_duplicates-Distinct}
use careeria.Identity.Authentication.{Method, Level, resolve_level, method_comparable}
use careeria.Identity.AuthorizationTransaction.Step.{
  NextStep, consent, ready, step_equal, Status, status_ready, status_completed,
}
use careeria.Identity.AuthorizationTransaction.{
  Error, Pkce, AuthorizationTransaction, is_pending, new, all_requested,
  ensure_granted_scopes_allowed,
}
use careeria.Identity.AuthorizationTransaction.Authenticating.{resolve_authentication_completion}
use careeria.Identity.AuthorizationTransaction.Calls.{Call, perform, run}
use careeria.Identity.AuthorizationTransaction.Changes.{
  Change, authenticate, pass, verify, bind, register, authorize, completed, denied, Outcome,
  refused, changed, perform-Outcome,
}

-- The level is the one that the methods make, for an identity, at a time.
abbrev pub IsLevel : Option Level → List Method → Option Uuid → Option Time → Type 0
IsLevel none methods id at = Unit
IsLevel (some level) methods id at =
    (resolve_level methods ≡ ok level) × (is_some id ≡ true) × (is_some at ≡ true)

-- The granted scopes are some of the requested ones, each once, from a source.
pub record Granted (t : AuthorizationTransaction) : Type 0 where
  pub level_known : is_some t.authentication_level ≡ true
  pub some_scope : is_empty t.granted_scopes ≡ false
  pub once_each : Distinct t.granted_scopes
  pub within : Within t.granted_scopes t.requested_scopes
  pub source_known : is_some t.authorization_source ≡ true

abbrev pub GrantedIf : Status → AuthorizationTransaction → Type 0
GrantedIf status_ready t = Granted t
GrantedIf status_completed t = Granted t
GrantedIf _ t = Unit

pub record WellFormed (t : AuthorizationTransaction) : Type 0 where
  pub level_ok :
      IsLevel t.authentication_level t.authenticated_methods t.identity_id t.authenticated_at
  pub level_last :
      is_some t.authentication_level ≡ true
      → is_pending t.status ≡ true
      → step_equal t.next_step consent ≡ true
  pub ready_step : t.status ≡ status_ready → t.next_step ≡ ready
  pub granted : GrantedIf t.status t

all_requested-Within :
    (requested granted : List Text)
    → all_requested requested granted ≡ true
    → Within granted requested
unfolding all_requested
all_requested-Within requested [] h = tt
all_requested-Within requested (s ∷ granted) h =
    (ground arith, all_requested-Within requested granted (ground arith))

allowed-granted :
    (t : AuthorizationTransaction) (granted : List Text)
    → ensure_granted_scopes_allowed t granted ≡ none
    → Distinct granted × Within granted t.requested_scopes
unfolding ensure_granted_scopes_allowed
allowed-granted t granted h = (
  (has_duplicates-Distinct granted).0 (ground arith),
  all_requested-Within t.requested_scopes granted (ground arith),
)

completion-IsLevel :
    (methods : List Method) (next : NextStep) (level : Level)
    → resolve_authentication_completion methods next ≡ ok (some level)
    → (step_equal next consent ≡ true) × (resolve_level methods ≡ ok level)
unfolding resolve_authentication_completion
completion-IsLevel methods next level h = ground arith

Change-WellFormed :
    {t u : AuthorizationTransaction} {c : Call} {now : Time}
    → Change t c now u
    → WellFormed t
    → WellFormed u
Change-WellFormed {t} (authenticate id m next s none p l i r edge) w = record {
  level_ok = ground arith;
  level_last = λ h. ground arith;
  ready_step = λ h. ground arith;
  granted = ground arith;
}
Change-WellFormed {t} (authenticate id m next s (some level) p l i r edge) w =
    let done = completion-IsLevel (t.authenticated_methods ++ m ∷ []) next level r in
    record {
      level_ok = (done.1, refl, refl);
      level_last = λ h p'. done.0;
      ready_step = λ h. ground arith;
      granted = ground arith;
    }
Change-WellFormed {t} (pass next s none p l i r edge) w = record {
  level_ok = ground arith;
  level_last = λ h. ground arith;
  ready_step = λ h. ground arith;
  granted = ground arith;
}
Change-WellFormed {t} (pass next s (some level) p l i r edge) w =
    let done = completion-IsLevel t.authenticated_methods next level r in
    record {
      level_ok = (done.1, i, refl);
      level_last = λ h p'. done.0;
      ready_step = λ h. ground arith;
      granted = ground arith;
    }
Change-WellFormed {t} (verify next s none p l i v r edge) w = record {
  level_ok = ground arith;
  level_last = λ h. ground arith;
  ready_step = λ h. ground arith;
  granted = ground arith;
}
Change-WellFormed {t} (verify next s (some level) p l i v r edge) w =
    let done = completion-IsLevel t.authenticated_methods next level r in
    record {
      level_ok = (done.1, i, refl);
      level_last = λ h p'. done.0;
      ready_step = λ h. ground arith;
      granted = ground arith;
    }
Change-WellFormed (bind v s p free here) w = record {
  level_ok = w.level_ok;
  level_last = w.level_last;
  ready_step = w.ready_step;
  granted = ground arith;
}
Change-WellFormed {t} (register id step s p here i verifies edge) w = record {
  level_ok = ground arith;
  level_last = λ h p'. ground arith;
  ready_step = λ h. ground arith;
  granted = ground arith;
}
Change-WellFormed {t} (authorize granted source s p here l g a) w =
    let allowed = allowed-granted t granted a in
    record {
      level_ok = w.level_ok;
      level_last = λ h p'. ground arith;
      ready_step = λ h. refl;
      granted = record {
        level_known = l;
        some_scope = g;
        once_each = allowed.0;
        within = allowed.1;
        source_known = refl;
      };
    }
Change-WellFormed (completed s r here i l at) w = record {
  level_ok = w.level_ok;
  level_last = λ h p'. ground arith;
  ready_step = λ h. ground arith;
  granted = ground arith;
}
Change-WellFormed (denied s p) w = record {
  level_ok = w.level_ok;
  level_last = λ h p'. ground arith;
  ready_step = λ h. ground arith;
  granted = tt;
}

Outcome-WellFormed :
    (t : AuthorizationTransaction) (c : Call) (now : Time)
    (r : AuthorizationTransaction × Option Error)
    → Outcome t c now r
    → WellFormed t
    → WellFormed r.0
Outcome-WellFormed t c now _ (refused e) w = w
Outcome-WellFormed t c now _ (changed x) w = Change-WellFormed x w

pub run-WellFormed :
    (t : AuthorizationTransaction) (cs : List (Call × Time))
    → WellFormed t
    → WellFormed (run t cs).0
unfolding run
run-WellFormed t [] w = w
run-WellFormed t ((c, now) ∷ cs) w =
    run-WellFormed (perform t c now).0 cs
      (Outcome-WellFormed t c now (perform t c now) (perform-Outcome t c now) w)

pub new-WellFormed :
    (id client : Uuid) (uri : Text) (requested : List Text) (state oidc_nonce : Option Text)
    (require_pkce : Bool) (pkce : Option Pkce) (expires now : Time) (t : AuthorizationTransaction)
    → new id client uri requested state oidc_nonce require_pkce pkce expires now ≡ ok t
    → WellFormed t
unfolding new
new-WellFormed id client uri requested state oidc_nonce require_pkce pkce expires now t made =
    record {
      level_ok = ground arith;
      level_last = λ h p. ground arith;
      ready_step = λ h. ground arith;
      granted = ground arith;
    }
