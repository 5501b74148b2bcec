-- ===== src/Identity/Identities.antt =====
-- services/identity/internal/domain/identity: identity.go, and the statuses of types.go. A method
-- returns the identity that it leaves and the error; the receiver is never nil.
pub mod Contacts
pub mod Accounts
pub mod Renewing
pub mod Leading
pub mod SettingPrimary
pub mod Methods
pub mod Invariant
pub mod Keeping
pub mod Histories
pub mod Deletion
mod Tests
use careeria.Base.{
  ℕ, zero, suc, Bool, true, false, not, ◌&&◌, ◌||◌, Option, none, some, List, [], ◌∷◌, ◌++◌, set,
  is_some, if◌then◌else◌, Result, ok, err, equal, nat_comparable, list_comparable,
}
use careeria.Base.Finding.{index_where}
use careeria.Base.Text.{Text, codes}
use careeria.Domain.{Time, Uuid, is_zero, before, is_valid_id}
use careeria.Identity.Identities.Contacts.{
  Kind, email, phone, Error, Contact, Effect, refused, kept, changed, new_contact, is_active,
  is_usable, add, verify_at, set_primary_at, remove_at, constructor_invalid, invalid_status,
  invalid_transition, login_method_required, change_time_invalid, account_not_found, account_exists,
  account_disabled,
}
use careeria.Identity.Identities.Accounts
use careeria.Identity.Identities.Accounts.{
  ExternalAccount, new_external_account, is_linked, is_usable_account, matches, has_account_id,
  record_authentication, unlink,
}

pub data Status : Type 0 where
  pending active disabled deleted : Status

unfoldable pub parse_status : Text → Option Status
parse_status value =
    if equal value (codes "pending")
    then some pending
    else if equal value (codes "active")
    then some active
    else if equal value (codes "disabled")
    then some disabled
    else if equal value (codes "deleted")
    then some deleted
    else none

abbrev pub status_equal : Status → Status → Bool
status_equal pending pending = true
status_equal active active = true
status_equal disabled disabled = true
status_equal deleted deleted = true
status_equal _ _ = false

pub record Identity : Type 0 where
  pub id : Uuid
  pub status : Status
  pub emails : List Contact
  pub phones : List Contact
  pub accounts : List ExternalAccount
  pub created_at : Time
  pub updated_at : Time
  pub deleted_at : Option Time

unfoldable pub new_identity : Uuid → Time → Result Error Identity
new_identity id now =
    if not (is_valid_id id) || is_zero now
    then err constructor_invalid
    else ok (record {
      id = id;
      status = pending;
      emails = [];
      phones = [];
      accounts = [];
      created_at = now;
      updated_at = now;
      deleted_at = none;
    })

unfoldable pub new_with_email : Uuid → Uuid → Text → Time → Result Error Identity
unfolding new_identity new_contact
new_with_email id email_id address now = elim (new_identity id now) [
  | err e ↦ err e
  | ok i ↦ elim (new_contact email email_id address true now) [
    | err e ↦ err e
    | ok c ↦ ok (record i { emails = i.emails ++ c ∷ [] })
  ]
]

unfoldable pub new_with_phone : Uuid → Uuid → Text → Time → Result Error Identity
unfolding new_identity new_contact
new_with_phone id phone_id number now = elim (new_identity id now) [
  | err e ↦ err e
  | ok i ↦ elim (new_contact phone phone_id number true now) [
    | err e ↦ err e
    | ok c ↦ ok (record i { phones = i.phones ++ c ∷ [] })
  ]
]

unfoldable pub new_with_external_account : Uuid → Uuid → Text → Text → Time → Result Error Identity
unfolding new_identity new_external_account
new_with_external_account id account_id provider subject now = elim (new_identity id now) [
  | err e ↦ err e
  | ok i ↦ elim (new_external_account account_id provider subject now) [
    | err e ↦ err e
    | ok a ↦ ok (record i { accounts = i.accounts ++ a ∷ [] })
  ]
]

-- The loop that looks for an element other than the one at an index; `none` is -1.
abbrev pub any_except : {A : Type 0} → (A → Bool) → Option ℕ → List A → Bool
any_except test skip [] = false
any_except test none (x ∷ xs) = test x || any_except test none xs
any_except test (some zero) (x ∷ xs) = any_except test none xs
any_except test (some (suc i)) (x ∷ xs) = test x || any_except test (some i) xs

abbrev pub has_login_method_except : Identity → Option ℕ → Option ℕ → Option ℕ → Bool
has_login_method_except i email_index phone_index account_index =
    any_except is_active email_index i.emails
    || any_except is_active phone_index i.phones
    || any_except is_linked account_index i.accounts

abbrev pub has_usable_login_method_except : Identity → Option ℕ → Option ℕ → Option ℕ → Bool
has_usable_login_method_except i email_index phone_index account_index =
    any_except is_usable email_index i.emails
    || any_except is_usable phone_index i.phones
    || any_except is_usable_account account_index i.accounts

abbrev pub has_usable_login_method : Identity → Bool
has_usable_login_method i = has_usable_login_method_except i none none none

unfoldable pub ensure_login_method_removable :
    Identity → Option ℕ → Option ℕ → Option ℕ → Option Error
ensure_login_method_removable i email_index phone_index account_index =
    if not (has_login_method_except i email_index phone_index account_index)
    then some login_method_required
    else if status_equal i.status active
        && not (has_usable_login_method_except i email_index phone_index account_index)
    then some login_method_required
    else none

abbrev pub ensure_change_allowed : Identity → Time → Option Error
ensure_change_allowed i now =
    if status_equal i.status deleted || is_some i.deleted_at
    then some invalid_status
    else if is_zero now || before now i.updated_at
    then some change_time_invalid
    else none

-- The guard that every method starts with.
unfoldable pub guarded_change : Identity → Time → Identity × Option Error → Identity × Option Error
guarded_change i now rest = elim (ensure_change_allowed i now) [
  | some e ↦ (i, some e)
  | none ↦ rest
]

unfoldable pub activate : Identity → Time → Identity × Option Error
unfolding guarded_change
activate i now = guarded_change i now (
    if not (status_equal i.status pending)
    then (i, some invalid_transition)
    else if not (has_usable_login_method i)
    then (i, some login_method_required)
    else (record i { status = active; updated_at = now }, none))

unfoldable pub disable : Identity → Time → Identity × Option Error
unfolding guarded_change
disable i now = guarded_change i now (
    if not (status_equal i.status pending) && not (status_equal i.status active)
    then (i, some invalid_transition)
    else (record i { status = disabled; updated_at = now }, none))

unfoldable pub enable : Identity → Time → Identity × Option Error
unfolding guarded_change
enable i now = guarded_change i now (
    if not (status_equal i.status disabled)
    then (i, some invalid_transition)
    else if not (has_usable_login_method i)
    then (i, some login_method_required)
    else (record i { status = active; updated_at = now }, none))

unfoldable pub delete : Identity → Time → Identity × Option Error
unfolding guarded_change
delete i now =
    guarded_change i now
      (record i { status = deleted; deleted_at = some now; updated_at = now }, none)
