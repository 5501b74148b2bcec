-- ===== src/Identity/Identities/Accounts.antt =====
-- services/identity/internal/domain/identity/external_account.go.
use careeria.Base.{
  Bool, not, ◌&&◌, ◌||◌, Option, none, some, [], ◌∷◌, is_some, if◌then◌else◌, ◌==◌, Result, ok, err,
  equal_list, nat_comparable,
}
use careeria.Base.Text.{Text}
use careeria.Domain.{Time, Uuid, is_zero, before, is_valid_id, latest_of}
use careeria.Identity.Identities.Contacts.{
  Error, account_invalid, account_deleted, account_time_invalid, account_disabled,
  account_not_disabled,
}

pub record ExternalAccount : Type 0 where
  pub id : Uuid
  pub provider : Text
  pub subject : Text
  pub linked_at : Time
  pub last_authenticated_at : Option Time
  pub disabled_at : Option Time
  pub deleted_at : Option Time

unfoldable pub new_external_account : Uuid → Text → Text → Time → Result Error ExternalAccount
new_external_account id provider subject now =
    if not (is_valid_id id) || is_zero now
    then err account_invalid
    else ok (record {
      id = id;
      provider = provider;
      subject = subject;
      linked_at = now;
      last_authenticated_at = none;
      disabled_at = none;
      deleted_at = none;
    })

abbrev pub is_linked : ExternalAccount → Bool
is_linked a = not (is_some a.deleted_at)

abbrev pub is_usable_account : ExternalAccount → Bool
is_usable_account a = is_linked a && not (is_some a.disabled_at)

abbrev pub matches : Text → Text → ExternalAccount → Bool
matches provider subject a = equal_list a.provider provider && equal_list a.subject subject

abbrev pub has_account_id : Uuid → ExternalAccount → Bool
has_account_id id a = is_linked a && a.id == id

abbrev pub latest_changed_at : ExternalAccount → Time
latest_changed_at a =
    latest_of a.linked_at (a.last_authenticated_at ∷ a.disabled_at ∷ a.deleted_at ∷ [])

abbrev pub ensure_account_change_allowed : ExternalAccount → Time → Option Error
ensure_account_change_allowed a now =
    if not (is_linked a)
    then some account_deleted
    else if is_zero now || before now (latest_changed_at a)
    then some account_time_invalid
    else none

unfoldable pub record_authentication : ExternalAccount → Time → ExternalAccount × Option Error
record_authentication a now = elim (ensure_account_change_allowed a now) [
  | some e ↦ (a, some e)
  | none ↦
      if not (is_usable_account a)
      then (a, some account_disabled)
      else (record a { last_authenticated_at = some now }, none)
]

unfoldable pub disable : ExternalAccount → Time → ExternalAccount × Option Error
disable a now = elim (ensure_account_change_allowed a now) [
  | some e ↦ (a, some e)
  | none ↦
      if is_some a.disabled_at
      then (a, some account_disabled)
      else (record a { disabled_at = some now }, none)
]

unfoldable pub enable : ExternalAccount → Time → ExternalAccount × Option Error
enable a now = elim (ensure_account_change_allowed a now) [
  | some e ↦ (a, some e)
  | none ↦
      if not (is_some a.disabled_at)
      then (a, some account_not_disabled)
      else (record a { disabled_at = none }, none)
]

unfoldable pub unlink : ExternalAccount → Time → ExternalAccount × Option Error
unlink a now = elim (ensure_account_change_allowed a now) [
  | some e ↦ (a, some e)
  | none ↦ (record a { deleted_at = some now }, none)
]
