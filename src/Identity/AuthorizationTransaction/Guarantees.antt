-- ===== src/Identity/AuthorizationTransaction/Guarantees.antt =====
-- What a sign-in has established once it is ready or completed.
use careeria.Base.{
  ◌≡◌, ◌<◌, ◌∙◌, subst, refl, Bool, true, false, Option, none, some, List, [], ◌∷◌, is_some,
  is_empty, arith, ok, Distinct, Within, nat_comparable, list_comparable,
}
use careeria.Base.Text.{Text}
use careeria.Domain.{Time, Uuid}
use careeria.Identity.Authentication.{Method, Level, resolve_level, method_comparable}
use careeria.Identity.AuthorizationTransaction.Step.{status_ready, status_completed}
use careeria.Identity.AuthorizationTransaction.{
  Error, Pkce, AuthorizationTransaction, new, complete, ensure_change_allowed,
}
use careeria.Identity.AuthorizationTransaction.Calls.{Call, perform, run}
use careeria.Identity.AuthorizationTransaction.Changes.{
  Change, authenticate, pass, verify, bind, register, authorize, completed, denied, Outcome,
  refused, changed, perform-Outcome,
}
use careeria.Identity.AuthorizationTransaction.Invariant.{
  IsLevel, Granted, GrantedIf, WellFormed, run-WellFormed, new-WellFormed,
}

-- What was asked for at the start stays.
record Kept (t u : AuthorizationTransaction) : Type 0 where
  client : u.oauth_client_id ≡ t.oauth_client_id
  uri : u.redirect_uri ≡ t.redirect_uri
  requested : u.requested_scopes ≡ t.requested_scopes
  challenge : u.pkce ≡ t.pkce
  expiry : u.expires_at ≡ t.expires_at

Change-Kept : {t u : AuthorizationTransaction} {c : Call} {now : Time} → Change t c now u → Kept t u
Change-Kept (authenticate id m next s none p l i r edge) = ground arith
Change-Kept (authenticate id m next s (some level) p l i r edge) = ground arith
Change-Kept (pass next s none p l i r edge) = ground arith
Change-Kept (pass next s (some level) p l i r edge) = ground arith
Change-Kept (verify next s none p l i v r edge) = ground arith
Change-Kept (verify next s (some level) p l i v r edge) = ground arith
Change-Kept (bind v s p free here) = ground arith
Change-Kept (register id step s p here i verifies edge) = ground arith
Change-Kept (authorize granted source s p here l g a) = ground arith
Change-Kept (completed s r here i l at) = ground arith
Change-Kept (denied s p) = ground arith

Outcome-Kept :
    (t : AuthorizationTransaction) (c : Call) (now : Time)
    (r : AuthorizationTransaction × Option Error)
    → Outcome t c now r
    → Kept t r.0
Outcome-Kept t c now _ (refused e) = ground arith
Outcome-Kept t c now _ (changed x) = Change-Kept x

run-Kept : (t : AuthorizationTransaction) (cs : List (Call × Time)) → Kept t (run t cs).0
unfolding run
run-Kept t [] = ground arith
run-Kept t ((c, now) ∷ cs) = ground (
  arith,
  Outcome-Kept t c now (perform t c now) (perform-Outcome t c now),
  run-Kept (perform t c now).0 cs,
)

new-requested :
    (id client : Uuid) (uri : Text) (requested : List Text) (state oidc_nonce : Option Text)
    (require_pkce : Bool) (pkce : Option Pkce) (expires now : Time) (t : AuthorizationTransaction)
    → new id client uri requested state oidc_nonce require_pkce pkce expires now ≡ ok t
    → (t.requested_scopes ≡ requested) × (t.expires_at ≡ expires)
unfolding new
new-requested id client uri requested state oidc_nonce require_pkce pkce expires now t made =
    ground arith

Granted-level :
    (level : Option Level) (methods : List Method) (id : Option Uuid) (at : Option Time)
    → IsLevel level methods id at
    → is_some level ≡ true
    → (l : Level) × (level ≡ some l)
      × (resolve_level methods ≡ ok l)
      × (is_some id ≡ true)
      × (is_some at ≡ true)
Granted-level none methods id at w h = absurd (not_known h)
  where
    not_known : is_some {A = Level} none ≡ true → ⊥
    not_known h = cc
Granted-level (some l) methods id at w h = (l, refl, w.0, w.1, w.2)

-- A sign-in that completes, after whatever calls, has authenticated an identity by known methods,
-- whose level it carries, and grants scopes that were requested at its start: at least one, and
-- none twice.
pub completed_authorized :
    (id client : Uuid) (uri : Text) (requested : List Text) (state oidc_nonce : Option Text)
    (require_pkce : Bool) (pkce : Option Pkce) (expires now : Time) (t : AuthorizationTransaction)
    (cs : List (Call × Time))
    → new id client uri requested state oidc_nonce require_pkce pkce expires now ≡ ok t
    → (run t cs).0.status ≡ status_completed
    → let u = (run t cs).0 in
      (is_some u.identity_id ≡ true)
      × ((l : Level) × (u.authentication_level ≡ some l)
          × (resolve_level u.authenticated_methods ≡ ok l))
      × (is_empty u.granted_scopes ≡ false)
      × Distinct u.granted_scopes
      × Within u.granted_scopes requested
completed_authorized id client uri requested state oidc_nonce require_pkce pkce expires now t cs
      made done =
    let u = (run t cs).0 in
    let w = run-WellFormed t cs (
      new-WellFormed id client uri requested state oidc_nonce require_pkce pkce expires now t
        made) in
    let asked =
      (run-Kept t cs).requested
      ∙ (new-requested id client uri requested state oidc_nonce require_pkce pkce expires now t
          made).0 in
    let g = granted_of u done w in
    let (l, e, resolved, known, at) =
      Granted-level u.authentication_level u.authenticated_methods u.identity_id u.authenticated_at
        w.level_ok g.level_known in
    (known, (l, e, resolved), g.some_scope, g.once_each, rw asked at g.within)
  where
    granted_of :
        (u : AuthorizationTransaction) → u.status ≡ status_completed → WellFormed u → Granted u
    granted_of u done w = subst (λ s. GrantedIf s u) done w.granted

-- A ready transaction that is well formed completes before it expires.
complete_ready :
    (u : AuthorizationTransaction) (later : Time)
    → WellFormed u
    → u.status ≡ status_ready
    → 0 < later
    → later < u.expires_at
    → ((complete u later).1 ≡ none) × ((complete u later).0.status ≡ status_completed)
unfolding complete ensure_change_allowed
complete_ready u later w here positive early =
    let g : Granted u = subst (λ s. GrantedIf s u) here w.granted in
    let (l, e, resolved, known, at) =
      Granted-level u.authentication_level u.authenticated_methods u.identity_id u.authenticated_at
        w.level_ok g.level_known in
    ground (arith, w.ready_step here, g.level_known)

-- A sign-in that is ready always completes: after whatever calls, `Complete` succeeds at any time
-- between zero and the expiry, and never misses what it needs.
pub ready_completes :
    (id client : Uuid) (uri : Text) (requested : List Text) (state oidc_nonce : Option Text)
    (require_pkce : Bool) (pkce : Option Pkce) (expires now later : Time)
    (t : AuthorizationTransaction) (cs : List (Call × Time))
    → new id client uri requested state oidc_nonce require_pkce pkce expires now ≡ ok t
    → (run t cs).0.status ≡ status_ready
    → 0 < later
    → later < expires
    → ((complete (run t cs).0 later).1 ≡ none)
      × ((complete (run t cs).0 later).0.status ≡ status_completed)
ready_completes id client uri requested state oidc_nonce require_pkce pkce expires now later t cs
      made here positive early =
    let w = run-WellFormed t cs (
      new-WellFormed id client uri requested state oidc_nonce require_pkce pkce expires now t
        made) in
    let ends =
      (run-Kept t cs).expiry
      ∙ (new-requested id client uri requested state oidc_nonce require_pkce pkce expires now t
          made).1 in
    complete_ready (run t cs).0 later w here positive (rw ends early)
