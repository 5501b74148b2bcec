-- ===== src/Identity/Identities/Histories.antt =====
-- Sequences of calls on an identity of services/identity/internal/domain/identity/identity.go.
use careeria.Base.{
  ℕ, ◌≡◌, refl, true, Option, none, some, List, [], ◌∷◌, arith, subst, All, Distinct,
  nat_comparable, list_comparable, ok,
}
use careeria.Base.Text.{Text}
use careeria.Domain.{Time, Uuid}
use careeria.Identity.Identities.Contacts.{
  email, phone, Error, Contact, add, verify_at, set_primary_at, remove_at,
}
use careeria.Identity.Identities.Accounts.{ExternalAccount}
use careeria.Identity.Identities.Renewing.{
  values, Late, Led, add-Stays, verify_at-Stays, remove_at-Removes,
}
use careeria.Identity.Identities.SettingPrimary.{set_primary_at-Stays}
use careeria.Identity.Identities.Invariant.{
  WellFormed, Keeps, All-Late, guarded_change-rule, with_emails-Stays, with_phones-Stays,
  with_emails-Removes, with_phones-Removes,
}
use careeria.Identity.Identities.Keeping.{
  activate-Keeps, enable-Keeps, disable-Keeps, delete-Keeps, link_external_account-Keeps,
  record_external_authentication-Keeps, enable_external_account-Keeps,
  disable_external_account-Keeps, unlink_external_account-Keeps,
}
use careeria.Identity.Identities.Methods.{
  add_email, verify_email, set_primary_email, remove_email, add_phone, verify_phone,
  set_primary_phone, remove_phone, link_external_account, record_external_authentication,
  disable_external_account, enable_external_account, unlink_external_account,
}
use careeria.Identity.Identities.{
  Identity, pending, has_login_method_except, new_with_email, new_with_phone,
  new_with_external_account, activate, disable, enable, delete, ensure_login_method_removable,
}

pub data Call : Type 0 where
  activates disables enables deletes : Call
  adds_email adds_phone : Uuid → Text → Call
  verifies_email sets_primary_email removes_email : Uuid → Call
  verifies_phone sets_primary_phone removes_phone : Uuid → Call
  links : Uuid → Text → Text → Call
  records disables_account enables_account unlinks : Uuid → Call

unfoldable pub perform : Identity → Call → Time → Identity × Option Error
perform i activates now = activate i now
perform i disables now = disable i now
perform i enables now = enable i now
perform i deletes now = delete i now
perform i (adds_email id address) now = add_email i id address now
perform i (adds_phone id number) now = add_phone i id number now
perform i (verifies_email id) now = verify_email i id now
perform i (sets_primary_email id) now = set_primary_email i id now
perform i (removes_email id) now = remove_email i id now
perform i (verifies_phone id) now = verify_phone i id now
perform i (sets_primary_phone id) now = set_primary_phone i id now
perform i (removes_phone id) now = remove_phone i id now
perform i (links id provider subject) now = link_external_account i id provider subject now
perform i (records id) now = record_external_authentication i id now
perform i (disables_account id) now = disable_external_account i id now
perform i (enables_account id) now = enable_external_account i id now
perform i (unlinks id) now = unlink_external_account i id now

unfoldable pub run : Identity → List (Call × Time) → Identity
unfolding perform
run i [] = i
run i ((c, now) ∷ cs) = run (perform i c now).0 cs

perform-Keeps : (i : Identity) (c : Call) (now : Time) → WellFormed i → Keeps (perform i c now)
unfolding perform add_email verify_email set_primary_email remove_email add_phone verify_phone
    set_primary_phone remove_phone
perform-Keeps i activates now w = activate-Keeps i now w
perform-Keeps i disables now w = disable-Keeps i now w
perform-Keeps i enables now w = enable-Keeps i now w
perform-Keeps i deletes now w = delete-Keeps i now w
perform-Keeps i (adds_email id address) now w = guarded_change-rule i now w _ (λ t late.
    with_emails-Stays i now w (add email i.emails id address now) late
      (add-Stays email i.emails id address now))
perform-Keeps i (adds_phone id number) now w = guarded_change-rule i now w _ (λ t late.
    with_phones-Stays i now w (add phone i.phones id number now) late
      (add-Stays phone i.phones id number now))
perform-Keeps i (verifies_email id) now w = guarded_change-rule i now w _ (λ t late.
    with_emails-Stays i now w (verify_at email i.emails id now) late
      (verify_at-Stays email i.emails id now))
perform-Keeps i (sets_primary_email id) now w = guarded_change-rule i now w _ (λ t late.
    with_emails-Stays i now w (set_primary_at email i.emails id now) late (
      set_primary_at-Stays email i.emails id now t
        (All-Late i.updated_at now i.emails late w.late_emails)))
perform-Keeps i (removes_email id) now w = guarded_change-rule i now w _ (λ t late.
    let removable = λ (index : ℕ). ensure_login_method_removable i (some index) none none in
    with_emails-Removes i now w (remove_at email removable i.emails id now) late
      (remove_at-Removes email removable i.emails id now))
perform-Keeps i (verifies_phone id) now w = guarded_change-rule i now w _ (λ t late.
    with_phones-Stays i now w (verify_at phone i.phones id now) late
      (verify_at-Stays phone i.phones id now))
perform-Keeps i (sets_primary_phone id) now w = guarded_change-rule i now w _ (λ t late.
    with_phones-Stays i now w (set_primary_at phone i.phones id now) late (
      set_primary_at-Stays phone i.phones id now t
        (All-Late i.updated_at now i.phones late w.late_phones)))
perform-Keeps i (removes_phone id) now w = guarded_change-rule i now w _ (λ t late.
    let removable = λ (index : ℕ). ensure_login_method_removable i none (some index) none in
    with_phones-Removes i now w (remove_at phone removable i.phones id now) late
      (remove_at-Removes phone removable i.phones id now))
perform-Keeps i (links id provider subject) now w =
    link_external_account-Keeps i now w id provider subject
perform-Keeps i (records id) now w = record_external_authentication-Keeps i now w id
perform-Keeps i (disables_account id) now w = disable_external_account-Keeps i now w id
perform-Keeps i (enables_account id) now w = enable_external_account-Keeps i now w id
perform-Keeps i (unlinks id) now w = unlink_external_account-Keeps i now w id

run-WellFormed : (i : Identity) (cs : List (Call × Time)) → WellFormed i → WellFormed (run i cs)
unfolding run
run-WellFormed i [] w = w
run-WellFormed i ((c, now) ∷ cs) w = run-WellFormed (perform i c now).0 cs (perform-Keeps i c now w)

-- An identity as one of the three constructors makes it.
pub data Created (i : Identity) : Type 0 where
  with_email :
      (id email_id : Uuid) (address : Text) (now : Time)
      → new_with_email id email_id address now ≡ ok i
      → Created i
  with_phone :
      (id phone_id : Uuid) (number : Text) (now : Time)
      → new_with_phone id phone_id number now ≡ ok i
      → Created i
  with_account :
      (id account_id : Uuid) (provider subject : Text) (now : Time)
      → new_with_external_account id account_id provider subject now ≡ ok i
      → Created i

-- A new identity with its first contacts and accounts.
abbrev first_identity : Uuid → List Contact → List Contact → List ExternalAccount → Time → Identity
first_identity id emails phones accounts now = record {
  id = id;
  status = pending;
  emails = emails;
  phones = phones;
  accounts = accounts;
  created_at = now;
  updated_at = now;
  deleted_at = none;
}

abbrev first_contact : Uuid → Text → Time → Contact
first_contact id value now = record {
  id = id;
  value = value;
  is_primary = true;
  created_at = now;
  updated_at = now;
  verified_at = none;
  deleted_at = none;
}

abbrev first_account : Uuid → Text → Text → Time → ExternalAccount
first_account id provider subject now = record {
  id = id;
  provider = provider;
  subject = subject;
  linked_at = now;
  last_authenticated_at = none;
  disabled_at = none;
  deleted_at = none;
}

first-WellFormed :
    (id : Uuid) (emails phones : List Contact) (accounts : List ExternalAccount) (now : Time)
    → Distinct (values emails) × Led emails × All (Late now) emails
    → Distinct (values phones) × Led phones × All (Late now) phones
    → has_login_method_except (first_identity id emails phones accounts now) none none none ≡ true
    → WellFormed (first_identity id emails phones accounts now)
first-WellFormed id emails phones accounts now e p login = record {
  distinct_emails = e.0;
  distinct_phones = p.0;
  led_emails = e.1;
  led_phones = p.1;
  late_emails = e.2;
  late_phones = p.2;
  reachable = login;
  usable = λ h. cc;
}

Created-WellFormed : (i : Identity) → Created i → WellFormed i
unfolding new_with_email new_with_phone new_with_external_account
Created-WellFormed i (with_email id email_id address now h) =
    let cs = first_contact email_id address now ∷ [] in
    let e : first_identity id cs [] [] now ≡ i = ground arith in
    subst WellFormed e
      (first-WellFormed id cs [] [] now ((refl, tt), refl, (omega arith, tt)) (tt, refl, tt) refl)
Created-WellFormed i (with_phone id phone_id number now h) =
    let cs = first_contact phone_id number now ∷ [] in
    let e : first_identity id [] cs [] now ≡ i = ground arith in
    subst WellFormed e
      (first-WellFormed id [] cs [] now (tt, refl, tt) ((refl, tt), refl, (omega arith, tt)) refl)
Created-WellFormed i (with_account id account_id provider subject now h) =
    let accounts = first_account account_id provider subject now ∷ [] in
    let e : first_identity id [] [] accounts now ≡ i = ground arith in
    subst WellFormed e (first-WellFormed id [] [] accounts now (tt, refl, tt) (tt, refl, tt) refl)

-- Through all calls on a new identity: no two emails have one address and no two phones one number;
-- one active email is primary, where there is an active one, and likewise one active phone; there
-- is an email, phone or external account that was not removed; and while the identity is active,
-- one of them is usable to log in.
pub new-run_identity-WellFormed :
    (i : Identity) (cs : List (Call × Time)) → Created i → WellFormed (run i cs)
new-run_identity-WellFormed i cs made = run-WellFormed i cs (Created-WellFormed i made)
