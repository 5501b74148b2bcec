-- ===== src/Identity/AuthorizationGrant.antt =====
-- services/identity/internal/domain/authorizationgrant: types.go, errors.go, grant.go and policy.go.
-- A source is a parsed one or other text; a nil grant is `none`; the other pointers are not nil.
-- Of the OAuth client the code reads the consent mode and the registered scopes.
pub mod Consent
pub mod Covering
pub mod Merging
pub mod History
pub mod Revocation
mod Tests
use careeria.Base.{
  Bool, true, false, not, ◌&&◌, ◌||◌, Option, none, some, List, [], ◌∷◌, ◌++◌, if◌then◌else◌,
  is_some, is_empty, Result, ok, err, contains, Comparable, nat_comparable, list_comparable,
}
use careeria.Base.Text.{Text}
use careeria.Domain.{Time, Uuid, before, after, is_zero, is_valid_id, has_duplicates}
use careeria.Identity.AuthenticationFlow.{
  ConsentMode, mode_required, mode_trusted, mode_remember, other_mode,
}

pub data Error : Type 0 where
  revoked expired : Error
  grant_nil time_invalid identifier_invalid source_unknown : Error
  scope_required scope_duplicated scope_empty expiration_invalid : Error
  client_nil scope_not_allowed : Error

pub data Source : Type 0 where
  user_consent trusted_client_policy : Source
  other_source : Text → Source

unfoldable pub parse_source : Source → Result Error Source
parse_source (other_source s) = err source_unknown
parse_source source = ok source

pub record AuthorizationGrant : Type 0 where
  pub id : Uuid
  pub identity_id : Uuid
  pub oauth_client_id : Uuid
  pub source : Source
  pub scopes : List Text
  pub granted_at : Time
  pub updated_at : Time
  pub expires_at : Option Time
  pub revoked_at : Option Time

unfoldable pub has_empty_scope : List Text → Bool
has_empty_scope [] = false
has_empty_scope (scope ∷ scopes) = is_empty scope || has_empty_scope scopes

unfoldable pub validate_scopes : List Text → Option Error
unfolding has_empty_scope
validate_scopes scopes =
    if is_empty scopes
    then some scope_required
    else if has_duplicates scopes
    then some scope_duplicated
    else if has_empty_scope scopes
    then some scope_empty
    else none

-- `expiresAt != nil && !expiresAt.After(now)`
abbrev pub ends_before : Option Time → Time → Bool
ends_before none now = false
ends_before (some t) now = not (after t now)

unfoldable pub new :
    Uuid → Uuid → Uuid → Source → List Text → Option Time → Time → Result Error AuthorizationGrant
unfolding parse_source validate_scopes
new id identity client source scopes expires_at now =
    if not (is_valid_id id) || (not (is_valid_id identity) || not (is_valid_id client))
    then err identifier_invalid
    else elim (parse_source source) [
      | err e ↦ err e
      | ok s ↦ elim (validate_scopes scopes) [
        | some e ↦ err e
        | none ↦
            if is_zero now || ends_before expires_at now
            then err expiration_invalid
            else ok (record {
              id = id;
              identity_id = identity;
              oauth_client_id = client;
              source = source;
              scopes = scopes;
              granted_at = now;
              updated_at = now;
              expires_at = expires_at;
              revoked_at = none;
            })
      ]
    ]

-- `g.ExpiresAt != nil && !now.Before(*g.ExpiresAt)`
abbrev pub has_expired : Option Time → Time → Bool
has_expired none now = false
has_expired (some t) now = not (before now t)

unfoldable pub validate_active : AuthorizationGrant → Time → Option Error
validate_active g now =
    if is_zero now || before now g.updated_at
    then some time_invalid
    else if is_some g.revoked_at
    then some revoked
    else if has_expired g.expires_at now
    then some expired
    else none

-- The last loop of `Covers`, and of `clientAllowsScopes`: each scope is in the set.
unfoldable pub all_in : List Text → List Text → Bool
all_in granted [] = true
all_in granted (scope ∷ scopes) = contains granted scope && all_in granted scopes

unfoldable pub covers : Option AuthorizationGrant → List Text → Time → Bool
unfolding validate_active all_in
covers none scopes now = false
covers (some g) scopes now =
    if is_some (validate_active g now) || is_empty scopes then false else all_in g.scopes scopes

-- The loop of `Extend`: a scope that has been seen is left out.
unfoldable pub merge_scopes : List Text → List Text → List Text
merge_scopes seen [] = []
merge_scopes seen (scope ∷ scopes) =
    let skipped = merge_scopes seen scopes in
    let added = merge_scopes (scope ∷ seen) scopes in
    if contains seen scope then skipped else scope ∷ added

unfoldable pub extend :
    AuthorizationGrant → List Text → Option Time → Time → AuthorizationGrant × Option Error
unfolding validate_active validate_scopes merge_scopes
extend g scopes expires_at now = elim (validate_active g now) [
  | some e ↦ (g, some e)
  | none ↦ elim (validate_scopes scopes) [
    | some e ↦ (g, some e)
    | none ↦ if ends_before expires_at now then (g, some expiration_invalid) else (
      record g {
        scopes = merge_scopes [] (g.scopes ++ scopes);
        expires_at = expires_at;
        updated_at = now;
      },
      none,
    )
  ]
]

unfoldable pub replace :
    AuthorizationGrant → Source → List Text → Option Time → Time → AuthorizationGrant × Option Error
unfolding parse_source validate_scopes
replace g source scopes expires_at now = elim (parse_source source) [
  | err e ↦ (g, some e)
  | ok s ↦ elim (validate_scopes scopes) [
    | some e ↦ (g, some e)
    | none ↦
        if is_zero now || (before now g.updated_at || ends_before expires_at now)
        then (g, some time_invalid)
        else (
          record g {
            source = source;
            scopes = scopes;
            granted_at = now;
            updated_at = now;
            expires_at = expires_at;
            revoked_at = none;
          },
          none,
        )
  ]
]

unfoldable pub revoke : AuthorizationGrant → Time → AuthorizationGrant × Option Error
revoke g now =
    if is_some g.revoked_at
    then (g, none)
    else if is_zero now || before now g.updated_at
    then (g, some time_invalid)
    else (record g { revoked_at = some now; updated_at = now }, none)

pub data ConsentDecision : Type 0 where
  consent_required consent_remembered consent_trusted : ConsentDecision

pub record Decision : Type 0 where
  pub kind : ConsentDecision
  pub scopes : List Text

pub record OauthClient : Type 0 where
  pub consent_mode : ConsentMode
  pub scopes : List Text

abbrev pub client_allows_scopes : OauthClient → List Text → Bool
client_allows_scopes client requested = all_in client.scopes requested

-- The kind that `ResolveConsent` decides, once the request is valid.
unfoldable pub consent_kind :
    ConsentMode → Option AuthorizationGrant → List Text → Bool → Time → ConsentDecision
unfolding covers
consent_kind mode grant requested force now =
    if force then consent_required else elim mode as (λ m. ConsentDecision) [
      | mode_required ↦ consent_required
      | mode_trusted ↦ consent_trusted
      | mode_remember ↦ if covers grant requested now then consent_remembered else consent_required
      | other_mode s ↦ consent_required
    ]

unfoldable pub resolve_consent :
    Option OauthClient → Option AuthorizationGrant → List Text → Bool → Time → Result Error Decision
unfolding validate_scopes consent_kind
resolve_consent none grant requested force now = err client_nil
resolve_consent (some client) grant requested force now = elim (validate_scopes requested) [
  | some e ↦ err e
  | none ↦
      if has_duplicates requested || not (client_allows_scopes client requested)
      then err scope_not_allowed
      else ok (record {
        kind = consent_kind client.consent_mode grant requested force now;
        scopes = requested;
      })
]
