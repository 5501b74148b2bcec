-- ===== src/Identity/Mfa/Types.antt =====
-- The values of services/identity/internal/domain/mfa/types.go and the errors of errors.go. A
-- byte slice that is cloned is its bytes.
use careeria.Base.{
  List, is_empty, if◌then◌else◌, Result, ok, err, equal, nat_comparable, list_comparable, ◌≡◌, refl,
  ℕ,
}
use careeria.Base.Text.{Text, codes}
use careeria.Domain.{normalize_required_text}

pub data Error : Type 0 where
  factor_not_found factor_already_exists enabled_totp_already_exists : Error
  credential_already_exists factor_disabled factor_not_confirmed : Error
  totp_replay counter_rollback : Error
  identity_invalid change_time_invalid factor_id_required factor_time_invalid : Error
  factor_change_time_invalid factor_type_invalid : Error
  totp_missing digits_invalid period_invalid totp_time_invalid totp_use_time_invalid : Error
  time_step_invalid : Error
  credential_missing sign_count_invalid aaguid_invalid transport_duplicated : Error
  backup_not_eligible credential_time_invalid credential_use_time_invalid : Error
  backup_state_invalid : Error
  unknown_factor_type unknown_algorithm secret_required key_ref_required : Error
  credential_id_required public_key_required : Error

pub data FactorType : Type 0 where
  totp web_authn : FactorType

unfoldable pub parse_factor_type : Text → Result Error FactorType
parse_factor_type value =
    if equal value (codes "totp")
    then ok totp
    else if equal value (codes "webauthn")
    then ok web_authn
    else err unknown_factor_type

pub data TotpAlgorithm : Type 0 where
  sha1 sha256 sha512 : TotpAlgorithm

unfoldable pub parse_totp_algorithm : Text → Result Error TotpAlgorithm
parse_totp_algorithm value =
    if equal value (codes "sha1")
    then ok sha1
    else if equal value (codes "sha256")
    then ok sha256
    else if equal value (codes "sha512")
    then ok sha512
    else err unknown_algorithm

-- A byte slice.
abbrev pub Bytes : Type 0
Bytes = List ℕ

unfoldable pub new_encrypted_secret : Bytes → Result Error Bytes
new_encrypted_secret value = if is_empty value then err secret_required else ok value

unfoldable pub new_encryption_key_ref : Text → Result Error Text
unfolding normalize_required_text
new_encryption_key_ref value =
    let (value, present) = normalize_required_text value in
    if present then ok value else err key_ref_required

unfoldable pub new_credential_id : Bytes → Result Error Bytes
new_credential_id value = if is_empty value then err credential_id_required else ok value

unfoldable pub new_public_key : Bytes → Result Error Bytes
new_public_key value = if is_empty value then err public_key_required else ok value

parse_runs : parse_totp_algorithm (codes "sha256") ≡ ok sha256
unfolding parse_totp_algorithm
parse_runs = refl
