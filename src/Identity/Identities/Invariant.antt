-- ===== src/Identity/Identities/Invariant.antt =====
-- What every identity that the methods of services/identity/internal/domain/identity/identity.go
-- make is like, and what keeps it so.
use careeria.Base.{
  ℕ, ◌≤◌, ◌≡◌, true, false, Option, none, some, List, arith, All, All-mono, Distinct,
  nat_comparable, list_comparable,
}
use careeria.Base.Guards.{checked}
use careeria.Domain.{Time, is_zero}
use careeria.Identity.Identities.Contacts.{Error, Contact, Effect, refused, kept, changed}
use careeria.Identity.Identities.Accounts.{ExternalAccount}
use careeria.Identity.Identities.Renewing.{values, Late, Led, Renewed, Stays, Removes}
use careeria.Identity.Identities.{
  Identity, status_equal, active, has_login_method_except, has_usable_login_method_except,
  has_usable_login_method, ensure_login_method_removable, ensure_change_allowed, guarded_change,
}
use careeria.Identity.Identities.Methods.{with_emails, with_phones}

pub record WellFormed (i : Identity) : Type 0 where
  -- No two emails have one address and no two phones one number, removed ones included.
  pub distinct_emails : Distinct (values i.emails)
  pub distinct_phones : Distinct (values i.phones)
  -- One active email is primary, where there is one, and one active phone likewise.
  pub led_emails : Led i.emails
  pub led_phones : Led i.phones
  pub late_emails : All (Late i.updated_at) i.emails
  pub late_phones : All (Late i.updated_at) i.phones
  pub reachable : has_login_method_except i none none none ≡ true
  pub usable : status_equal i.status active ≡ true → has_usable_login_method i ≡ true

pub All-Late : (s t : Time) (cs : List Contact) → s ≤ t → All (Late s) cs → All (Late t) cs
All-Late s t cs h all = All-mono (Late s) (Late t) cs (λ c k. omega arith) all

pub emails-WellFormed :
    (i : Identity) (cs : List Contact) (now : Time) (skip : Option ℕ)
    → WellFormed i
    → i.updated_at ≤ now
    → Renewed i.emails cs now skip
    → has_login_method_except i skip none none ≡ true
    → (status_equal i.status active ≡ true → has_usable_login_method_except i skip none none ≡ true)
    → WellFormed (record i { emails = cs; updated_at = now })
emails-WellFormed i cs now skip w late r login usable = record {
  distinct_emails = r.distinct w.distinct_emails;
  distinct_phones = w.distinct_phones;
  led_emails = r.led w.led_emails;
  led_phones = w.led_phones;
  late_emails = r.late (All-Late i.updated_at now i.emails late w.late_emails);
  late_phones = All-Late i.updated_at now i.phones late w.late_phones;
  reachable = ground (arith, r.actives, login);
  usable = λ h. ground (arith, r.usables, usable h);
}

pub phones-WellFormed :
    (i : Identity) (cs : List Contact) (now : Time) (skip : Option ℕ)
    → WellFormed i
    → i.updated_at ≤ now
    → Renewed i.phones cs now skip
    → has_login_method_except i none skip none ≡ true
    → (status_equal i.status active ≡ true → has_usable_login_method_except i none skip none ≡ true)
    → WellFormed (record i { phones = cs; updated_at = now })
phones-WellFormed i cs now skip w late r login usable = record {
  distinct_emails = w.distinct_emails;
  distinct_phones = r.distinct w.distinct_phones;
  led_emails = w.led_emails;
  led_phones = r.led w.led_phones;
  late_emails = All-Late i.updated_at now i.emails late w.late_emails;
  late_phones = r.late (All-Late i.updated_at now i.phones late w.late_phones);
  reachable = ground (arith, r.actives, login);
  usable = λ h. ground (arith, r.usables, usable h);
}

pub accounts-WellFormed :
    (i : Identity) (accounts : List ExternalAccount) (now : Time)
    → WellFormed i
    → i.updated_at ≤ now
    → has_login_method_except (record i { accounts = accounts }) none none none ≡ true
    → (status_equal i.status active ≡ true
        → has_usable_login_method (record i { accounts = accounts }) ≡ true)
    → WellFormed (record i { accounts = accounts; updated_at = now })
accounts-WellFormed i accounts now w late login usable = record {
  distinct_emails = w.distinct_emails;
  distinct_phones = w.distinct_phones;
  led_emails = w.led_emails;
  led_phones = w.led_phones;
  late_emails = All-Late i.updated_at now i.emails late w.late_emails;
  late_phones = All-Late i.updated_at now i.phones late w.late_phones;
  reachable = login;
  usable = usable;
}

-- A change of the status alone.
pub status-WellFormed :
    (i i' : Identity) (now : Time)
    → WellFormed i
    → i.updated_at ≤ now
    → i'.emails ≡ i.emails
    → i'.phones ≡ i.phones
    → i'.accounts ≡ i.accounts
    → i'.updated_at ≡ now
    → (status_equal i'.status active ≡ true → has_usable_login_method i ≡ true)
    → WellFormed i'
status-WellFormed i i' now w late e p a u usable = record {
  distinct_emails = rw e w.distinct_emails;
  distinct_phones = rw p w.distinct_phones;
  led_emails = rw e w.led_emails;
  led_phones = rw p w.led_phones;
  late_emails = rw (e, u) (All-Late i.updated_at now i.emails late w.late_emails);
  late_phones = rw (p, u) (All-Late i.updated_at now i.phones late w.late_phones);
  reachable = rw (e, p, a) w.reachable;
  usable = λ h. rw (e, p, a) (usable h);
}

-- What a method keeps.
abbrev pub Keeps : Identity × Option Error → Type 0
Keeps r = WellFormed r.0

module _ (i : Identity) (now : Time) (w : WellFormed i) where
  -- The rule for a method after its guard.
  pub guarded_change-rule :
      (rest : Identity × Option Error)
      → (is_zero now ≡ false → i.updated_at ≤ now → Keeps rest)
      → Keeps (guarded_change i now rest)
  unfolding guarded_change
  guarded_change-rule rest h =
      checked {R = Identity × Option Error} Keeps (ensure_change_allowed i now) _ _ (λ e. w)
        (λ allowed. h (ground arith) (ground arith))

  pub with_emails-Stays :
      (r : List Contact × Effect)
      → i.updated_at ≤ now
      → Stays i.emails now none r
      → Keeps (with_emails i now r)
  with_emails-Stays (cs, refused e) late h = rw h w
  with_emails-Stays (cs, kept) late h = rw h w
  with_emails-Stays (cs, changed) late h =
      emails-WellFormed i cs now none w late h w.reachable w.usable

  pub with_phones-Stays :
      (r : List Contact × Effect)
      → i.updated_at ≤ now
      → Stays i.phones now none r
      → Keeps (with_phones i now r)
  with_phones-Stays (cs, refused e) late h = rw h w
  with_phones-Stays (cs, kept) late h = rw h w
  with_phones-Stays (cs, changed) late h =
      phones-WellFormed i cs now none w late h w.reachable w.usable

  -- What the check of the login methods finds.
  pub removable-lem :
      (e p a : Option ℕ)
      → ensure_login_method_removable i e p a ≡ none
      → (has_login_method_except i e p a ≡ true)
        × (status_equal i.status active ≡ true → has_usable_login_method_except i e p a ≡ true)
  unfolding ensure_login_method_removable
  removable-lem e p a h = ground arith

  pub with_emails-Removes :
      (r : List Contact × Effect)
      → i.updated_at ≤ now
      → Removes i.emails now (λ index. ensure_login_method_removable i (some index) none none) r
      → Keeps (with_emails i now r)
  with_emails-Removes (cs, refused e) late h = rw h w
  with_emails-Removes (cs, kept) late h = rw h w
  with_emails-Removes (cs, changed) late h =
      let (login, usable) = removable-lem (some h.0) none none h.1 in
      emails-WellFormed i cs now (some h.0) w late h.2 login usable

  pub with_phones-Removes :
      (r : List Contact × Effect)
      → i.updated_at ≤ now
      → Removes i.phones now (λ index. ensure_login_method_removable i none (some index) none) r
      → Keeps (with_phones i now r)
  with_phones-Removes (cs, refused e) late h = rw h w
  with_phones-Removes (cs, kept) late h = rw h w
  with_phones-Removes (cs, changed) late h =
      let (login, usable) = removable-lem none (some h.0) none h.1 in
      phones-WellFormed i cs now (some h.0) w late h.2 login usable
