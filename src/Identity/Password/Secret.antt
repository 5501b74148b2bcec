-- ===== src/Identity/Password/Secret.antt =====
-- services/identity/internal/domain/password/credential.go. A method that fails leaves the
-- credential as it is, so that an error comes without one.
use careeria.Base.{
  Bool, true, false, not, ◌||◌, Option, none, some, if◌then◌else◌, is_some, Result, ok, err,
}
use careeria.Base.Text.{Text}
use careeria.Domain.{Time, before, after, is_zero}
use careeria.Identity.Password.Attempts.{
  Error, time_invalid, expiration_invalid, compromised, expired,
}

pub record Credential : Type 0 where
  pub hash : Text
  pub must_change : Bool
  pub password_updated_at : Time
  pub expires_at : Option Time
  pub compromised_at : Option Time
  pub created_at : Time
  pub updated_at : Time

-- `expiresAt != nil && !expiresAt.After(now)`
abbrev pub ends_before : Option Time → Time → Bool
ends_before none now = false
ends_before (some t) now = not (after t now)

unfoldable pub new_credential : Text → Bool → Option Time → Time → Result Error Credential
new_credential hash must_change expires_at now =
    if is_zero now
    then err time_invalid
    else if ends_before expires_at now
    then err expiration_invalid
    else ok (record {
      hash = hash;
      must_change = must_change;
      password_updated_at = now;
      expires_at = expires_at;
      compromised_at = none;
      created_at = now;
      updated_at = now;
    })

unfoldable pub ensure_change_allowed : Credential → Time → Option Error
ensure_change_allowed c now =
    if is_zero now || before now c.updated_at then some time_invalid else none

unfoldable pub change : Credential → Text → Bool → Option Time → Time → Result Error Credential
unfolding ensure_change_allowed
change c hash must_change expires_at now = elim (ensure_change_allowed c now) [
  | some e ↦ err e
  | none ↦
      if ends_before expires_at now
      then err expiration_invalid
      else ok (record c {
        hash = hash;
        must_change = must_change;
        password_updated_at = now;
        expires_at = expires_at;
        compromised_at = none;
        updated_at = now;
      })
]

-- The Boolean tells whether the credential has changed.
unfoldable pub require_change : Credential → Time → Result Error (Credential × Bool)
unfolding ensure_change_allowed
require_change c now = elim (ensure_change_allowed c now) [
  | some e ↦ err e
  | none ↦
      if c.must_change
      then ok (c, false)
      else ok (record c { must_change = true; updated_at = now }, true)
]

unfoldable pub mark_compromised : Credential → Time → Result Error (Credential × Bool)
unfolding ensure_change_allowed
mark_compromised c now = elim (ensure_change_allowed c now) [
  | some e ↦ err e
  | none ↦
      if is_some c.compromised_at
      then ok (c, false)
      else ok (record c { must_change = true; compromised_at = some now; updated_at = now }, true)
]

-- `c.ExpiresAt != nil && !now.Before(*c.ExpiresAt)`
abbrev pub has_expired : Option Time → Time → Bool
has_expired none now = false
has_expired (some t) now = not (before now t)

unfoldable pub validate_for_authentication : Credential → Time → Option Error
validate_for_authentication c now =
    if is_zero now || before now c.updated_at
    then some time_invalid
    else if is_some c.compromised_at
    then some compromised
    else if has_expired c.expires_at now
    then some expired
    else none
