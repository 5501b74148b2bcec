-- ===== src/Identity/SigningKey.antt =====
-- services/identity/internal/domain/signingkey: signing_key.go, errors.go, and the algorithm and status
-- of types.go. The check of the public JWK (`validatePublicJWKMetadata`, which decodes JSON) is the
-- argument `metadata_error` of `new`; the JWK and the reference of the private key are texts.
pub mod Rotation
mod Tests
use careeria.Base.{
  Bool, true, false, not, ◌||◌, ◌&&◌, Option, none, some, List, [], ◌∷◌, if◌then◌else◌, Result, ok,
  err,
}
use careeria.Base.Text.{Text}
use careeria.Domain.{Time, Uuid, before, after, is_zero, is_valid_id, latest_of}

pub data Error : Type 0 where
  invalid_status not_yet_valid expired compromised_error : Error
  identifier_required validity_invalid expiration_invalid time_invalid : Error
  metadata_invalid : Text → Error

pub data Algorithm : Type 0 where
  eddsa es256 rs256 : Algorithm

pub data Status : Type 0 where
  pending active retiring retired compromised : Status

abbrev pub is_pending : Status → Bool
is_pending pending = true
is_pending _ = false

abbrev pub is_active : Status → Bool
is_active active = true
is_active _ = false

abbrev pub is_retiring : Status → Bool
is_retiring retiring = true
is_retiring _ = false

abbrev pub is_compromised : Status → Bool
is_compromised compromised = true
is_compromised _ = false

pub record SigningKey : Type 0 where
  pub id : Uuid
  pub key_id : Text
  pub algorithm : Algorithm
  pub public_jwk : Text
  pub private_key_ref : Text
  pub status : Status
  pub created_at : Time
  pub not_before : Time
  pub expires_at : Option Time
  pub activated_at : Option Time
  pub retiring_at : Option Time
  pub retired_at : Option Time
  pub compromised_at : Option Time

-- `expiresAt != nil && !expiresAt.After(notBefore)`
abbrev pub ends_before : Option Time → Time → Bool
ends_before none begin = false
ends_before (some t) begin = not (after t begin)

unfoldable pub new :
    Uuid
    → Text
    → Algorithm
    → Text
    → Text
    → Time
    → Option Time
    → Time
    → Option Text
    → Result Error SigningKey
new id key_id algorithm public_jwk private_key_ref not_before expires_at now metadata_error =
    if not (is_valid_id id)
    then err identifier_required
    else if is_zero now || before not_before now
    then err validity_invalid
    else if ends_before expires_at not_before
    then err expiration_invalid
    else elim metadata_error [
      | some e ↦ err (metadata_invalid e)
      | none ↦ ok (record {
        id = id;
        key_id = key_id;
        algorithm = algorithm;
        public_jwk = public_jwk;
        private_key_ref = private_key_ref;
        status = pending;
        created_at = now;
        not_before = not_before;
        expires_at = expires_at;
        activated_at = none;
        retiring_at = none;
        retired_at = none;
        compromised_at = none;
      })
    ]

unfoldable pub latest_lifecycle_at : SigningKey → Time
latest_lifecycle_at k = latest_of k.created_at (k.activated_at ∷ k.retiring_at ∷ k.retired_at ∷ [])

unfoldable pub latest_changed_at : SigningKey → Time
unfolding latest_lifecycle_at
latest_changed_at k = latest_of (latest_lifecycle_at k) (k.compromised_at ∷ [])

unfoldable pub ensure_change_allowed : SigningKey → Time → Option Error
unfolding latest_changed_at
ensure_change_allowed k now =
    if is_zero now || before now (latest_changed_at k) then some time_invalid else none

-- `k.ExpiresAt != nil && !now.Before(*k.ExpiresAt)`
abbrev pub has_expired : Option Time → Time → Bool
has_expired none now = false
has_expired (some t) now = not (before now t)

unfoldable pub activate : SigningKey → Time → SigningKey × Option Error
unfolding ensure_change_allowed
activate k now = elim (ensure_change_allowed k now) [
  | some e ↦ (k, some e)
  | none ↦
      if not (is_pending k.status)
      then (k, some invalid_status)
      else if before now k.not_before
      then (k, some not_yet_valid)
      else if has_expired k.expires_at now
      then (k, some expired)
      else (record k { status = active; activated_at = some now }, none)
]

unfoldable pub start_retirement : SigningKey → Time → SigningKey × Option Error
unfolding ensure_change_allowed
start_retirement k now = elim (ensure_change_allowed k now) [
  | some e ↦ (k, some e)
  | none ↦
      if not (is_active k.status)
      then (k, some invalid_status)
      else (record k { status = retiring; retiring_at = some now }, none)
]

unfoldable pub retire : SigningKey → Time → SigningKey × Option Error
unfolding ensure_change_allowed
retire k now = elim (ensure_change_allowed k now) [
  | some e ↦ (k, some e)
  | none ↦
      if not (is_retiring k.status)
      then (k, some invalid_status)
      else (record k { status = retired; retired_at = some now }, none)
]

unfoldable pub mark_compromised : SigningKey → Time → SigningKey × Option Error
unfolding ensure_change_allowed
mark_compromised k now =
    if is_compromised k.status then (k, none) else elim (ensure_change_allowed k now) [
      | some e ↦ (k, some e)
      | none ↦ (record k { status = compromised; compromised_at = some now }, none)
    ]

unfoldable pub validate_for_signing : SigningKey → Time → Option Error
unfolding latest_changed_at
validate_for_signing k now =
    if is_zero now || before now (latest_changed_at k)
    then some time_invalid
    else if is_compromised k.status
    then some compromised_error
    else if not (is_active k.status)
    then some invalid_status
    else if before now k.not_before
    then some not_yet_valid
    else if has_expired k.expires_at now
    then some expired
    else none

unfoldable pub validate_for_verification : SigningKey → Time → Option Error
unfolding latest_changed_at
validate_for_verification k now =
    if is_zero now || before now (latest_changed_at k)
    then some time_invalid
    else if is_compromised k.status
    then some compromised_error
    else if not (is_active k.status) && not (is_retiring k.status)
    then some invalid_status
    else if before now k.not_before
    then some not_yet_valid
    else if has_expired k.expires_at now
    then some expired
    else none
