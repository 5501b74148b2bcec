-- ===== src/Identity/AuthorizationCode.antt =====
-- services/identity/internal/domain/authorizationcode: authorization_code.go, types.go and errors.go,
-- and the nonce of openidconnect/types.go. `PKCE.Verify` (SHA-256 and base64) is the parameter `verify`
-- of a code's PKCE and a verifier.
pub mod Exchange
mod Tests
use careeria.Base.{
  ℕ, Bool, true, false, not, ◌||◌, Option, none, some, List, if◌then◌else◌, is_empty, ltb, ◌==◌,
  equal, Comparable, nat_comparable, list_comparable, Result, ok, err,
}
use careeria.Base.Text.{Text, byte_length}
use careeria.Domain.{Time, Uuid, before, after, is_zero, is_valid_id, has_text, has_duplicates}
use careeria.Identity.Authentication.{Method, Level, valid_level, level_equal, resolve_level}
use careeria.Identity.Authentication as authentication
use careeria.Identity.AuthorizationTransaction.{Pkce}

pub data Error : Type 0 where
  expired client_mismatch redirect_mismatch pkce_required pkce_failed : Error
  hash_required time_invalid client_invalid identity_invalid : Error
  level_mismatch scope_duplicated authenticated_invalid expiration_invalid : Error
  nonce_required nonce_too_long : Error
  snapshot_invalid : authentication.Error → Error

unfoldable pub new_hash : Text → Result Error Text
new_hash value = if not (has_text value) then err hash_required else ok value

abbrev pub max_nonce_length : ℕ
max_nonce_length = 2048

unfoldable pub new_nonce : Text → Result Error Text
new_nonce value =
    if is_empty value
    then err nonce_required
    else if ltb max_nonce_length (byte_length value)
    then err nonce_too_long
    else ok value

pub record AuthorizationCode : Type 0 where
  pub hash : Text
  pub oauth_client_id : Uuid
  pub identity_id : Uuid
  pub redirect_uri : Text
  pub scopes : List Text
  pub nonce : Option Text
  pub pkce : Option Pkce
  pub authentication_level : Level
  pub authenticated_methods : List Method
  pub authenticated_at : Time
  pub issued_at : Time
  pub expires_at : Time

unfoldable pub ensure_issuable : AuthorizationCode → Option Error
ensure_issuable c =
    if not (is_valid_id c.oauth_client_id)
    then some client_invalid
    else if not (is_valid_id c.identity_id)
    then some identity_invalid
    else elim (resolve_level c.authenticated_methods) [
      | err e ↦ some (snapshot_invalid e)
      | ok level ↦
          if not (valid_level c.authentication_level)
            || not (level_equal c.authentication_level level)
          then some level_mismatch
          else if has_duplicates c.scopes
          then some scope_duplicated
          else if is_zero c.authenticated_at || before c.issued_at c.authenticated_at
          then some authenticated_invalid
          else if is_zero c.issued_at || not (after c.expires_at c.issued_at)
          then some expiration_invalid
          else none
    ]

unfoldable pub new :
    Text
    → Uuid
    → Text
    → Uuid
    → Level
    → List Method
    → List Text
    → Option Text
    → Option Pkce
    → Time
    → Time
    → Time
    → Result Error AuthorizationCode
unfolding ensure_issuable
new hash client redirect_uri identity level methods scopes oidc_nonce pkce authenticated_at
      expires_at now =
    let entity : AuthorizationCode = record {
      hash = hash;
      oauth_client_id = client;
      identity_id = identity;
      redirect_uri = redirect_uri;
      scopes = scopes;
      nonce = oidc_nonce;
      pkce = pkce;
      authentication_level = level;
      authenticated_methods = methods;
      authenticated_at = authenticated_at;
      issued_at = now;
      expires_at = expires_at;
    } in
    elim (ensure_issuable entity) [ some e ↦ err e | none ↦ ok entity ]

-- The last tests of `ValidateForExchange`.
unfoldable pub check_pkce : (Pkce → Text → Bool) → Option Pkce → Option Text → Option Error
check_pkce verify none verifier = none
check_pkce verify (some pkce) none = some pkce_required
check_pkce verify (some pkce) (some verifier) =
    if not (verify pkce verifier) then some pkce_failed else none

unfoldable pub validate_for_exchange :
    (Pkce → Text → Bool) → AuthorizationCode → Uuid → Text → Option Text → Time → Option Error
unfolding check_pkce
validate_for_exchange verify c client redirect_uri verifier now =
    if is_zero now || before now c.issued_at
    then some time_invalid
    else if not (before now c.expires_at)
    then some expired
    else if not (client == c.oauth_client_id)
    then some client_mismatch
    else if not (equal redirect_uri c.redirect_uri)
    then some redirect_mismatch
    else check_pkce verify c.pkce verifier
