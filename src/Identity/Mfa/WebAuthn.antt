-- ===== src/Identity/Mfa/WebAuthn.antt =====
-- services/identity/internal/domain/mfa/webauthn.go: the credential of a WebAuthn factor.
use careeria.Base.{
  Bool, false, not, ◌&&◌, ◌||◌, Option, none, some, List, if◌then◌else◌, ◌==◌, Result, ok, err,
  equal, nat_comparable, list_comparable,
}
use careeria.Base.Int.{ℤ, pos, int_leb}
use careeria.Base.Text.{Text}
use careeria.Domain.{Time, Uuid, is_zero, before, later, has_duplicates}
use careeria.Identity.Mfa.Types.{
  Error, Bytes, sign_count_invalid, aaguid_invalid, transport_duplicated, backup_not_eligible,
  credential_time_invalid, credential_use_time_invalid, counter_rollback, backup_state_invalid,
}

pub record WebAuthnCredential : Type 0 where
  pub credential_id : Bytes
  pub public_key : Bytes
  pub aaguid : Option Uuid
  pub transports : List Text
  pub sign_count : ℤ
  pub backup_eligible : Bool
  pub backup_state : Bool
  pub created_at : Time
  pub last_used_at : Option Time

-- `aaguid != nil && *aaguid == uuid.Nil`
abbrev is_nil_aaguid : Option Uuid → Bool
is_nil_aaguid none = false
is_nil_aaguid (some id) = id == 0

unfoldable pub new_web_authn_credential :
    Bytes
    → Bytes
    → ℤ
    → Option Uuid
    → List Text
    → Bool
    → Bool
    → Time
    → Result Error WebAuthnCredential
unfolding has_duplicates
new_web_authn_credential credential_id public_key sign_count aaguid transports eligible state now =
    if not (int_leb (pos 0) sign_count)
    then err sign_count_invalid
    else if is_nil_aaguid aaguid
    then err aaguid_invalid
    else if has_duplicates transports
    then err transport_duplicated
    else if state && not eligible
    then err backup_not_eligible
    else if is_zero now
    then err credential_time_invalid
    else ok (record {
      credential_id = credential_id;
      public_key = public_key;
      aaguid = aaguid;
      transports = transports;
      sign_count = sign_count;
      backup_eligible = eligible;
      backup_state = state;
      created_at = now;
      last_used_at = none;
    })

abbrev pub latest_changed_at : WebAuthnCredential → Time
latest_changed_at c = later c.last_used_at c.created_at

abbrev pub has_credential_id : WebAuthnCredential → Bytes → Bool
has_credential_id c id = equal c.credential_id id

unfoldable pub record_use : WebAuthnCredential → ℤ → Bool → Time → WebAuthnCredential × Option Error
record_use c sign_count backup_state now =
    if is_zero now || before now (latest_changed_at c)
    then (c, some credential_use_time_invalid)
    else if not (int_leb (pos 0) sign_count)
    then (c, some sign_count_invalid)
    else if not (int_leb c.sign_count (pos 0)) && int_leb sign_count c.sign_count
    then (c, some counter_rollback)
    else if backup_state && not c.backup_eligible
    then (c, some backup_state_invalid)
    else (
      record c {
        sign_count = if not (int_leb sign_count c.sign_count) then sign_count else c.sign_count;
        backup_state = backup_state;
        last_used_at = some now;
      },
      none,
    )
