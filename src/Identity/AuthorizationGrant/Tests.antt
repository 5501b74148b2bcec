-- ===== src/Identity/AuthorizationGrant/Tests.antt =====
-- A grant of two scopes that is extended by a third, and one that is revoked.
use careeria.Base.{
  ◌≡◌, ◌↔◌, refl, true, false, none, some, List, [], ◌∷◌, ◌++◌, is_empty, arith, ok, Distinct,
  Within, nat_comparable, list_comparable,
}
use careeria.Base.Text.{Text, codes}
use careeria.Domain.{Time, has_duplicates}
use careeria.Identity.AuthenticationFlow.{mode_remember}
use careeria.Identity.AuthorizationGrant.{
  AuthorizationGrant, user_consent, new, covers, extend, OauthClient, Decision, consent_remembered,
  resolve_consent,
}
use careeria.Identity.AuthorizationGrant.Covering.{extend-covers}
use careeria.Identity.AuthorizationGrant.Consent.{IsJustified, resolve_consent-IsJustified}
use careeria.Identity.AuthorizationGrant.History.{Call, extends, replaces, revokes}
use careeria.Identity.AuthorizationGrant.Revocation.{}

abbrev two_scopes : List Text
two_scopes = codes "openid" ∷ codes "jobs:read" ∷ []

abbrev one_more : List Text
one_more = codes "jobs:read" ∷ codes "jobs:write" ∷ []

abbrev grant : AuthorizationGrant
grant = record {
  id = 1;
  identity_id = 2;
  oauth_client_id = 3;
  source = user_consent;
  scopes = two_scopes;
  granted_at = 100;
  updated_at = 100;
  expires_at = none;
  revoked_at = none;
}

abbrev extended_grant : AuthorizationGrant
extended_grant = record grant {
  scopes = codes "openid" ∷ codes "jobs:read" ∷ codes "jobs:write" ∷ [];
  updated_at = 200;
  expires_at = some 900;
}

abbrev revoked_grant : AuthorizationGrant
revoked_grant = record grant { updated_at = 300; revoked_at = some 300 }

abbrev calls : List (Call × Time)
calls =
    (extends one_more (some 900), 200)
    ∷ (revokes, 300)
    ∷ (replaces user_consent two_scopes none, 400)
    ∷ []

abbrev calls_kept : List (Call × Time)
calls_kept = (extends one_more (some 900), 400) ∷ (revokes, 500) ∷ []

grant_made : new 1 2 3 user_consent two_scopes none 100 ≡ ok grant
unfolding new has_duplicates
grant_made = refl

grant_extended : extend grant one_more (some 900) 200 ≡ (extended_grant, none)
unfolding extend has_duplicates
grant_extended = refl

extend-covers_example :
    Distinct extended_grant.scopes
    × ((covers (some extended_grant) one_more 300 ≡ true)
        ↔ ((is_empty one_more ≡ false) × Within one_more (two_scopes ++ one_more)))
extend-covers_example =
    extend-covers grant extended_grant one_more (some 900) 200 300 one_more grant_extended
      (omega arith) refl

abbrev client : OauthClient
client = record { consent_mode = mode_remember; scopes = two_scopes }

abbrev remembered : Decision
remembered = record { kind = consent_remembered; scopes = two_scopes }

consent_resolved : resolve_consent (some client) (some grant) two_scopes false 200 ≡ ok remembered
unfolding resolve_consent has_duplicates
consent_resolved = refl

resolve_consent-IsJustified_example :
    IsJustified client (some grant) two_scopes false 200 remembered
resolve_consent-IsJustified_example =
    resolve_consent-IsJustified client (some grant) two_scopes false 200 remembered consent_resolved
