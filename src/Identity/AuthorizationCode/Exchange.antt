-- ===== src/Identity/AuthorizationCode/Exchange.antt =====
-- From a completed sign-in to its code: services/identity/internal/domain/authorizationcode, with
-- authorizationtransaction beside it.
use careeria.Base.{
  ◌≡◌, ◌≢◌, ◌≤◌, ◌<◌, refl, subst, Bool, false, not, ◌||◌, Option, none, some, List, ok, arith,
  list_comparable, nat_comparable, Distinct,
}
use careeria.Base.Guards.{past, passed, settled_ok}
use careeria.Base.Text.{Text}
use careeria.Domain.{Time, Uuid, is_zero, before, after, is_valid_id, has_duplicates}
use careeria.Domain.Duplicates.{has_duplicates-Distinct}
use careeria.Identity.Authentication.{
  Method, Level, knowledge, possession, valid_level, level_equal, resolve_level,
}
use careeria.Identity.Authentication.Levels.{resolve_level_iff, level_of, shows}
use careeria.Identity.AuthorizationTransaction.Step.{status_completed}
use careeria.Identity.AuthorizationTransaction.{AuthorizationTransaction, Pkce}
use careeria.Identity.AuthorizationTransaction as transaction
use careeria.Identity.AuthorizationTransaction.Calls.{Call, run}
use careeria.Identity.AuthorizationTransaction.Guarantees.{completed_authorized}
use careeria.Identity.AuthorizationCode.{Error, AuthorizationCode, ensure_issuable, new}

resolved_valid :
    (methods : List Method) (l : Level)
    → resolve_level methods ≡ ok l
    → (not (valid_level l) || not (level_equal l l)) ≡ false
resolved_valid methods l resolved =
    rw ((resolve_level_iff methods l).0 resolved).3
      (plain (shows knowledge methods) (shows possession methods))
  where
    plain :
        (b c : Bool)
        → (not (valid_level (level_of b c)) || not (level_equal (level_of b c) (level_of b c)))
          ≡ false
    plain b c = ground arith

issuable :
    (c : AuthorizationCode)
    → c.oauth_client_id ≢ 0
    → c.identity_id ≢ 0
    → resolve_level c.authenticated_methods ≡ ok c.authentication_level
    → Distinct c.scopes
    → 0 < c.authenticated_at
    → c.authenticated_at ≤ c.issued_at
    → c.issued_at < c.expires_at
    → ensure_issuable c ≡ none
unfolding ensure_issuable
issuable c client identity resolved once positive order live =
    past P (not (is_valid_id c.oauth_client_id)) _ _ (ground (arith, client)) (
      past P (not (is_valid_id c.identity_id)) _ _ (ground (arith, identity)) (
        settled_ok P (resolve_level c.authenticated_methods) _ _ c.authentication_level resolved (
          past P
            (not (valid_level c.authentication_level)
              || not (level_equal c.authentication_level c.authentication_level))
            _ _ (resolved_valid c.authenticated_methods c.authentication_level resolved)
            (past P (has_duplicates c.scopes) _ _ ((has_duplicates-Distinct c.scopes).1 once) (
              past P (is_zero c.authenticated_at || before c.issued_at c.authenticated_at) _ _
                (ground (arith, positive, order))
                (past P (is_zero c.issued_at || not (after c.expires_at c.issued_at)) _ _
                  (ground (arith, positive, order, live)) refl))))))
  where
    P : Option Error → Type 0
    P r = r ≡ none

-- A completed sign-in can always be given a code: with its identity, its level and methods and the
-- scopes that it grants, `New` succeeds, for a client and an identity that are not nil and any
-- times of authentication, issue and expiry in that order, and the code carries those scopes.
pub completed_issues_code :
    (id client : Uuid) (uri : Text) (requested : List Text) (state oidc_nonce : Option Text)
    (require_pkce : Bool) (pkce : Option Pkce) (expires now : Time) (t : AuthorizationTransaction)
    (cs : List (Call × Time)) (hash : Text) (i : Uuid) (l : Level) (at issue code_expires : Time)
    → transaction.new id client uri requested state oidc_nonce require_pkce pkce expires now ≡ ok t
    → (run t cs).0.status ≡ status_completed
    → (run t cs).0.identity_id ≡ some i
    → (run t cs).0.authentication_level ≡ some l
    → client ≢ 0
    → i ≢ 0
    → 0 < at
    → at ≤ issue
    → issue < code_expires
    → let u = (run t cs).0 in
      (c : AuthorizationCode) × (new hash client uri i l u.authenticated_methods u.granted_scopes
          oidc_nonce pkce at code_expires issue
        ≡ ok c)
      × (c.scopes ≡ u.granted_scopes)
      × (c.issued_at ≡ issue)
unfolding new
completed_issues_code id client uri requested state oidc_nonce require_pkce pkce expires now t cs
      hash i l at issue code_expires made done who level known_client known positive order live =
    let u = (run t cs).0 in
    let (_, (k, level_is, resolved), _, once, _) =
      completed_authorized id client uri requested state oidc_nonce require_pkce pkce expires now t
        cs made done in
    let same : k ≡ l = cc (level_is, level) in
    let entity : AuthorizationCode = record {
      hash = hash;
      oauth_client_id = client;
      identity_id = i;
      redirect_uri = uri;
      scopes = u.granted_scopes;
      nonce = oidc_nonce;
      pkce = pkce;
      authentication_level = l;
      authenticated_methods = u.authenticated_methods;
      authenticated_at = at;
      issued_at = issue;
      expires_at = code_expires;
    } in
    let allowed =
      issuable entity known_client known
        (subst (λ x. resolve_level u.authenticated_methods ≡ ok x) same resolved) once positive
        order live in
    (entity, passed (λ r. r ≡ ok entity) (ensure_issuable entity) _ _ allowed refl, refl, refl)
