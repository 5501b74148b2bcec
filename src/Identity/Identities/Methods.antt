-- ===== src/Identity/Identities/Methods.antt =====
-- The methods on emails, phones and external accounts of
-- services/identity/internal/domain/identity/identity.go.
use careeria.Base.{
  ℕ, not, ◌&&◌, Option, none, some, List, [], ◌∷◌, ◌++◌, set, is_some, if◌then◌else◌, ok, err,
}
use careeria.Base.Finding.{index_where}
use careeria.Base.Text.{Text}
use careeria.Domain.{Time, Uuid}
use careeria.Identity.Identities.Contacts.{
  email, phone, Error, Contact, Effect, refused, kept, changed, add, verify_at, set_primary_at,
  remove_at, account_not_found, account_exists, account_disabled, login_method_required,
  invalid_status,
}
use careeria.Identity.Identities.Accounts
use careeria.Identity.Identities.Accounts.{
  ExternalAccount, new_external_account, is_usable_account, matches, has_account_id,
  record_authentication, unlink,
}
use careeria.Identity.Identities.{
  Identity, status_equal, active, guarded_change, ensure_login_method_removable,
  has_usable_login_method_except,
}

-- The emails after a method on them, with the time of the change where there is one.
abbrev pub with_emails : Identity → Time → List Contact × Effect → Identity × Option Error
with_emails i now (cs, refused e) = (record i { emails = cs }, some e)
with_emails i now (cs, kept) = (record i { emails = cs }, none)
with_emails i now (cs, changed) = (record i { emails = cs; updated_at = now }, none)

abbrev pub with_phones : Identity → Time → List Contact × Effect → Identity × Option Error
with_phones i now (cs, refused e) = (record i { phones = cs }, some e)
with_phones i now (cs, kept) = (record i { phones = cs }, none)
with_phones i now (cs, changed) = (record i { phones = cs; updated_at = now }, none)

unfoldable pub add_email : Identity → Uuid → Text → Time → Identity × Option Error
unfolding guarded_change add
add_email i id address now =
    guarded_change i now (with_emails i now (add email i.emails id address now))

unfoldable pub verify_email : Identity → Uuid → Time → Identity × Option Error
unfolding guarded_change verify_at
verify_email i id now = guarded_change i now (with_emails i now (verify_at email i.emails id now))

unfoldable pub set_primary_email : Identity → Uuid → Time → Identity × Option Error
unfolding guarded_change set_primary_at
set_primary_email i id now =
    guarded_change i now (with_emails i now (set_primary_at email i.emails id now))

unfoldable pub remove_email : Identity → Uuid → Time → Identity × Option Error
unfolding guarded_change remove_at ensure_login_method_removable
remove_email i id now = guarded_change i now (
    with_emails i now (
      remove_at email (λ index. ensure_login_method_removable i (some index) none none) i.emails id
        now))

unfoldable pub add_phone : Identity → Uuid → Text → Time → Identity × Option Error
unfolding guarded_change add
add_phone i id number now =
    guarded_change i now (with_phones i now (add phone i.phones id number now))

unfoldable pub verify_phone : Identity → Uuid → Time → Identity × Option Error
unfolding guarded_change verify_at
verify_phone i id now = guarded_change i now (with_phones i now (verify_at phone i.phones id now))

unfoldable pub set_primary_phone : Identity → Uuid → Time → Identity × Option Error
unfolding guarded_change set_primary_at
set_primary_phone i id now =
    guarded_change i now (with_phones i now (set_primary_at phone i.phones id now))

unfoldable pub remove_phone : Identity → Uuid → Time → Identity × Option Error
unfolding guarded_change remove_at ensure_login_method_removable
remove_phone i id now = guarded_change i now (
    with_phones i now (
      remove_at phone (λ index. ensure_login_method_removable i none (some index) none) i.phones id
        now))

unfoldable pub link_external_account :
    Identity → Uuid → Text → Text → Time → Identity × Option Error
unfolding guarded_change index_where new_external_account
link_external_account i id provider subject now = guarded_change i now (
    if is_some (index_where (matches provider subject) i.accounts)
    then (i, some account_exists)
    else elim (new_external_account id provider subject now) [
      | err e ↦ (i, some e)
      | ok a ↦ (record i { accounts = i.accounts ++ a ∷ []; updated_at = now }, none)
    ])

-- The external accounts with the one at an index as its method left it.
abbrev pub account_at :
    Identity → ℕ → Time → ExternalAccount × Option Error → Identity × Option Error
account_at i index now (a, some e) = (record i { accounts = set i.accounts index a }, some e)
account_at i index now (a, none) =
    (record i { accounts = set i.accounts index a; updated_at = now }, none)

-- The search for the account that the rest of a method is about.
unfoldable pub on_account :
    Identity → Uuid → (ℕ × ExternalAccount → Identity × Option Error) → Identity × Option Error
unfolding index_where
on_account i id rest = elim (index_where (has_account_id id) i.accounts) [
  | none ↦ (i, some account_not_found)
  | some r ↦ rest r
]

unfoldable pub record_external_authentication : Identity → Uuid → Time → Identity × Option Error
unfolding guarded_change on_account record_authentication
record_external_authentication i id now = guarded_change i now (
    if not (status_equal i.status active)
    then (i, some invalid_status)
    else on_account i id (λ r. account_at i r.0 now (record_authentication r.1 now)))

unfoldable pub disable_external_account : Identity → Uuid → Time → Identity × Option Error
unfolding guarded_change on_account Accounts.disable
disable_external_account i id now = guarded_change i now (
    on_account i id (λ r.
      if not (is_usable_account r.1)
      then (i, some account_disabled)
      else if status_equal i.status active
          && not (has_usable_login_method_except i none none (some r.0))
      then (i, some login_method_required)
      else account_at i r.0 now (Accounts.disable r.1 now)))

unfoldable pub enable_external_account : Identity → Uuid → Time → Identity × Option Error
unfolding guarded_change on_account Accounts.enable
enable_external_account i id now =
    guarded_change i now (on_account i id (λ r. account_at i r.0 now (Accounts.enable r.1 now)))

unfoldable pub unlink_external_account : Identity → Uuid → Time → Identity × Option Error
unfolding guarded_change on_account unlink ensure_login_method_removable
unlink_external_account i id now = guarded_change i now (
    on_account i id (λ r. elim (ensure_login_method_removable i none none (some r.0)) [
      | some e ↦ (i, some e)
      | none ↦ account_at i r.0 now (unlink r.1 now)
    ]))
