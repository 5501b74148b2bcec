-- ===== src/Identity/Mfa/Factors.antt =====
-- services/identity/internal/domain/mfa/factor.go, and the constructors of factors in totp.go and
-- webauthn.go. A method returns the factor that it leaves with Go's results; one that returns
-- `(bool, error)` returns a `Result`.
use careeria.Base.{
  Bool, true, false, not, ◌&&◌, ◌||◌, Option, none, some, List, if◌then◌else◌, ◌==◌, is_some,
  Result, ok, err,
}
use careeria.Base.Int.{ℤ}
use careeria.Base.Text.{Text}
use careeria.Domain.{
  Time, Uuid, is_zero, before, is_valid_id, normalize_optional_text, equal_optional_text,
}
use careeria.Identity.Mfa.Totp
use careeria.Identity.Mfa.Totp.{Totp, new_totp}
use careeria.Identity.Mfa.WebAuthn
use careeria.Identity.Mfa.WebAuthn.{WebAuthnCredential, new_web_authn_credential, has_credential_id}
use careeria.Identity.Mfa.Types.{
  Error, Bytes, FactorType, totp, web_authn, TotpAlgorithm, factor_id_required, factor_time_invalid,
  factor_change_time_invalid, factor_disabled, factor_not_confirmed, factor_type_invalid,
  totp_missing, credential_missing,
}

pub record Factor : Type 0 where
  pub id : Uuid
  pub type_of : FactorType
  pub name : Option Text
  pub is_primary : Bool
  pub totp_config : Option Totp
  pub credential : Option WebAuthnCredential
  pub created_at : Time
  pub updated_at : Time
  pub confirmed_at : Option Time
  pub last_used_at : Option Time
  pub disabled_at : Option Time

unfoldable pub new_factor : Uuid → FactorType → Option Text → Time → Result Error Factor
unfolding normalize_optional_text
new_factor id type_of name now =
    if not (is_valid_id id)
    then err factor_id_required
    else if is_zero now
    then err factor_time_invalid
    else ok (record {
      id = id;
      type_of = type_of;
      name = normalize_optional_text name;
      is_primary = false;
      totp_config = none;
      credential = none;
      created_at = now;
      updated_at = now;
      confirmed_at = none;
      last_used_at = none;
      disabled_at = none;
    })

unfoldable pub new_totp_factor :
    Uuid → Option Text → Bytes → Text → TotpAlgorithm → ℤ → ℤ → Time → Result Error Factor
unfolding new_factor new_totp
new_totp_factor id name secret key_ref algorithm digits period now =
    elim (new_factor id totp name now) [
      | err e ↦ err e
      | ok factor ↦ elim (new_totp secret key_ref algorithm digits period now) [
        | err e ↦ err e
        | ok config ↦ ok (record factor { totp_config = some config })
      ]
    ]

unfoldable pub new_web_authn_factor :
    Uuid
    → Option Text
    → Bytes
    → Bytes
    → ℤ
    → Option Uuid
    → List Text
    → Bool
    → Bool
    → Time
    → Result Error Factor
unfolding new_factor new_web_authn_credential
new_web_authn_factor id name credential_id public_key sign_count aaguid transports eligible state
      now =
    elim (new_factor id web_authn name now) [
      | err e ↦ err e
      | ok factor ↦
          elim (new_web_authn_credential credential_id public_key sign_count aaguid transports
            eligible state now) [
              | err e ↦ err e
              | ok made ↦ ok (record factor { credential = some made })
            ]
    ]

abbrev pub is_enabled : Factor → Bool
is_enabled f = not (is_some f.disabled_at)

abbrev pub is_confirmed : Factor → Bool
is_confirmed f = is_some f.confirmed_at

abbrev pub type_equal : FactorType → FactorType → Bool
type_equal totp totp = true
type_equal web_authn web_authn = true
type_equal _ _ = false

abbrev pub is_totp : Factor → Bool
is_totp f = type_equal f.type_of totp && is_some f.totp_config

abbrev pub is_web_authn : Factor → Bool
is_web_authn f = type_equal f.type_of web_authn && is_some f.credential

abbrev pub has_id : Uuid → Factor → Bool
has_id id f = f.id == id

-- The call through the pointer, which answers false where it is nil.
abbrev credential_has_id : Option WebAuthnCredential → Bytes → Bool
credential_has_id none id = false
credential_has_id (some c) id = has_credential_id c id

abbrev pub factor_has_credential_id : Bytes → Factor → Bool
factor_has_credential_id id f = is_web_authn f && credential_has_id f.credential id

abbrev pub ensure_change_allowed : Factor → Time → Option Error
ensure_change_allowed f now =
    if is_zero now || before now f.updated_at then some factor_change_time_invalid else none

unfoldable pub rename : Factor → Option Text → Time → Factor × Result Error Bool
unfolding normalize_optional_text
rename f name now = elim (ensure_change_allowed f now) [
  | some e ↦ (f, err e)
  | none ↦
      if equal_optional_text f.name (normalize_optional_text name)
      then (f, ok false)
      else (record f { name = normalize_optional_text name; updated_at = now }, ok true)
]

unfoldable pub confirm : Factor → Bool → Time → Factor × Option Error
confirm f primary now = elim (ensure_change_allowed f now) [
  | some e ↦ (f, some e)
  | none ↦
      if not (is_enabled f)
      then (f, some factor_disabled)
      else if is_confirmed f
      then (f, none)
      else (record f { confirmed_at = some now; is_primary = primary; updated_at = now }, none)
]

unfoldable pub promote : Factor → Time → Factor × Result Error Bool
promote f now = elim (ensure_change_allowed f now) [
  | some e ↦ (f, err e)
  | none ↦
      if not (is_enabled f)
      then (f, err factor_disabled)
      else if not (is_confirmed f)
      then (f, err factor_not_confirmed)
      else if f.is_primary
      then (f, ok false)
      else (record f { is_primary = true; updated_at = now }, ok true)
]

unfoldable pub demote : Factor → Time → Factor × Option Error
demote f now = if not f.is_primary then (f, none) else elim (ensure_change_allowed f now) [
  | some e ↦ (f, some e)
  | none ↦ (record f { is_primary = false; updated_at = now }, none)
]

unfoldable pub disable : Factor → Time → Factor × Option Error
disable f now = elim (ensure_change_allowed f now) [
  | some e ↦ (f, some e)
  | none ↦
      if not (is_enabled f)
      then (f, some factor_disabled)
      else (record f { is_primary = false; disabled_at = some now; updated_at = now }, none)
]

unfoldable pub enable : Factor → Time → Factor × Option Error
enable f now = elim (ensure_change_allowed f now) [
  | some e ↦ (f, some e)
  | none ↦
      if is_enabled f then (f, none) else (record f { disabled_at = none; updated_at = now }, none)
]

-- `f.TOTP.RecordUse(…)`, through the pointer.
unfoldable pub use_totp : Option Totp → ℤ → Time → Option Totp × Option Error
unfolding Totp.record_use
use_totp none time_step now = (none, some totp_missing)
use_totp (some t) time_step now =
    let (t', refused) = Totp.record_use t time_step now in (some t', refused)

-- The guards of both recording methods.
abbrev pub ensure_usable : Bool → Factor → Time → Option Error
ensure_usable right_type f now = elim (ensure_change_allowed f now) [
  | some e ↦ some e
  | none ↦
      if not right_type
      then some factor_type_invalid
      else if not (is_enabled f)
      then some factor_disabled
      else if not (is_confirmed f)
      then some factor_not_confirmed
      else none
]

unfoldable pub record_totp_use : Factor → ℤ → Time → Factor × Option Error
unfolding use_totp
record_totp_use f time_step now = elim (ensure_usable (is_totp f) f now) [
  | some e ↦ (f, some e)
  | none ↦
      let (config, refused) = use_totp f.totp_config time_step now in
      let f' = record f { totp_config = config } in
      elim refused [
        | some e ↦ (f', some e)
        | none ↦ (record f' { last_used_at = some now; updated_at = now }, none)
      ]
]

-- `f.WebAuthn.RecordUse(…)`, through the pointer.
unfoldable pub use_web_authn :
    Option WebAuthnCredential → ℤ → Bool → Time → Option WebAuthnCredential × Option Error
unfolding WebAuthn.record_use
use_web_authn none sign_count backup_state now = (none, some credential_missing)
use_web_authn (some c) sign_count backup_state now =
    let (c', refused) = WebAuthn.record_use c sign_count backup_state now in (some c', refused)

unfoldable pub record_web_authn_use : Factor → ℤ → Bool → Time → Factor × Option Error
unfolding use_web_authn
record_web_authn_use f sign_count backup_state now = elim (ensure_usable (is_web_authn f) f now) [
  | some e ↦ (f, some e)
  | none ↦
      let (made, refused) = use_web_authn f.credential sign_count backup_state now in
      let f' = record f { credential = made } in
      elim refused [
        | some e ↦ (f', some e)
        | none ↦ (record f' { last_used_at = some now; updated_at = now }, none)
      ]
]
