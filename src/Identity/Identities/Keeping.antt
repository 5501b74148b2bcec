-- ===== src/Identity/Identities/Keeping.antt =====
-- Each method on external accounts, and on the status, of
-- services/identity/internal/domain/identity/identity.go keeps the invariant.
use careeria.Base.{
  ℕ, ◌≤◌, ◌≡◌, refl, true, not, ◌&&◌, Option, none, some, [], ◌∷◌, ◌++◌, arith, set, is_some,
}
use careeria.Base.Guards.{guarded, checked, settled, found}
use careeria.Base.Finding.{index_where, Found, index_where-Found, set_self}
use careeria.Base.Text.{Text}
use careeria.Domain.{Time, Uuid}
use careeria.Identity.Identities.Contacts.{Error}
use careeria.Identity.Identities.Accounts
use careeria.Identity.Identities.Accounts.{
  ExternalAccount, is_linked, is_usable_account, matches, has_account_id,
  ensure_account_change_allowed, new_external_account, record_authentication, unlink,
}
use careeria.Identity.Identities.Renewing.{any-append, any-set, any-skip}
use careeria.Identity.Identities.Invariant.{
  WellFormed, Keeps, accounts-WellFormed, status-WellFormed, guarded_change-rule, removable-lem,
}
use careeria.Identity.Identities.{
  Identity, pending, active, disabled, status_equal, has_usable_login_method,
  has_usable_login_method_except, ensure_login_method_removable, activate, disable, enable, delete,
}
use careeria.Identity.Identities.Methods.{
  account_at, on_account, link_external_account, record_external_authentication,
  disable_external_account, enable_external_account, unlink_external_account,
}

module _ (i : Identity) (now : Time) (w : WellFormed i) where
  pub activate-Keeps : Keeps (activate i now)
  unfolding activate
  activate-Keeps = guarded_change-rule i now w _ (λ set_time late.
      guarded {R = Identity × Option Error} Keeps (not (status_equal i.status pending)) _ _ w (λ p.
        guarded {R = Identity × Option Error} Keeps (not (has_usable_login_method i)) _ _ w
          (λ u. status-WellFormed i _ now w late refl refl refl refl (λ h. ground arith))))

  pub enable-Keeps : Keeps (enable i now)
  unfolding enable
  enable-Keeps = guarded_change-rule i now w _ (λ set_time late.
      guarded {R = Identity × Option Error} Keeps (not (status_equal i.status disabled)) _ _ w (λ p.
        guarded {R = Identity × Option Error} Keeps (not (has_usable_login_method i)) _ _ w
          (λ u. status-WellFormed i _ now w late refl refl refl refl (λ h. ground arith))))

  pub disable-Keeps : Keeps (disable i now)
  unfolding disable
  disable-Keeps = guarded_change-rule i now w _ (λ set_time late.
      guarded {R = Identity × Option Error} Keeps
        (not (status_equal i.status pending) && not (status_equal i.status active)) _ _ w
        (λ p. status-WellFormed i _ now w late refl refl refl refl (λ h. cc)))

  pub delete-Keeps : Keeps (delete i now)
  unfolding delete
  delete-Keeps =
      guarded_change-rule i now w _
        (λ set_time late. status-WellFormed i _ now w late refl refl refl refl (λ h. cc))

  -- An account that a method leaves as usable and as linked as it was.
  module _ (late : i.updated_at ≤ now) (id : Uuid) {index : ℕ} {a : ExternalAccount}
      (it : Found (has_account_id id) i.accounts index a) where
    accounts_set :
        (a' : ExternalAccount)
        → (is_linked a ≡ true → is_linked a' ≡ true)
        → (is_usable_account a ≡ true → is_usable_account a' ≡ true)
        → WellFormed (record i { accounts = set i.accounts index a'; updated_at = now })
    accounts_set a' linked usable =
        accounts-WellFormed i (set i.accounts index a') now w late
          (ground (arith, w.reachable, any-set is_linked a' it linked))
          (λ h. ground (arith, w.usable h, any-set is_usable_account a' it usable))

    same_accounts : WellFormed (record i { accounts = set i.accounts index a })
    same_accounts = rw (set_self (has_account_id id) it) w

    record_authentication-Keeps : Keeps (account_at i index now (record_authentication a now))
    unfolding record_authentication
    record_authentication-Keeps =
        let P = λ (r : ExternalAccount × Option Error). Keeps (account_at i index now r) in
        checked P (ensure_account_change_allowed a now) _ _ (λ e. same_accounts)
          (λ timely.
            guarded P (not (is_usable_account a)) _ _ same_accounts
              (λ usable. accounts_set _ (λ h. h) (λ h. h)))

    enable_account-Keeps : Keeps (account_at i index now (Accounts.enable a now))
    unfolding Accounts.enable
    enable_account-Keeps =
        let P = λ (r : ExternalAccount × Option Error). Keeps (account_at i index now r) in
        checked P (ensure_account_change_allowed a now) _ _ (λ e. same_accounts)
          (λ timely.
            guarded P (not (is_some a.disabled_at)) _ _ same_accounts
              (λ off. accounts_set _ (λ h. h) (λ h. ground arith)))

    disable_account-Keeps :
        (status_equal i.status active ≡ true
          → has_usable_login_method_except i none none (some index) ≡ true)
        → Keeps (account_at i index now (Accounts.disable a now))
    unfolding Accounts.disable
    disable_account-Keeps usable =
        let P = λ (r : ExternalAccount × Option Error). Keeps (account_at i index now r) in
        checked P (ensure_account_change_allowed a now) _ _ (λ e. same_accounts)
          (λ timely. guarded P (is_some a.disabled_at) _ _ same_accounts (λ on.
            accounts-WellFormed i _ now w late
              (ground (
                arith,
                w.reachable,
                any-set is_linked (record a { disabled_at = some now }) it (λ h. h),
              ))
              (λ h. ground (
                arith,
                usable h,
                any-skip is_usable_account (record a { disabled_at = some now }) it,
              ))))

    unlink-Keeps :
        ensure_login_method_removable i none none (some index) ≡ none
        → Keeps (account_at i index now (unlink a now))
    unfolding unlink
    unlink-Keeps allowed =
        let P = λ (r : ExternalAccount × Option Error). Keeps (account_at i index now r) in
        let (login, usable) = removable-lem i now w none none (some index) allowed in
        checked P (ensure_account_change_allowed a now) _ _ (λ e. same_accounts)
          (λ timely.
            accounts-WellFormed i _ now w late
              (ground (arith, login, any-skip is_linked (record a { deleted_at = some now }) it))
              (λ h. ground (
                arith,
                usable h,
                any-skip is_usable_account (record a { deleted_at = some now }) it,
              )))

  on_account-rule :
      (id : Uuid) (rest : ℕ × ExternalAccount → Identity × Option Error)
      → ((r : ℕ × ExternalAccount) → Found (has_account_id id) i.accounts r.0 r.1 → Keeps (rest r))
      → Keeps (on_account i id rest)
  unfolding on_account
  on_account-rule id rest h =
      found {R = Identity × Option Error} Keeps (index_where (has_account_id id) i.accounts) _ rest
        w (λ r e. h r (index_where-Found (has_account_id id) i.accounts r.0 r.1 e))

  pub link_external_account-Keeps :
      (id : Uuid) (provider subject : Text)
      → Keeps (link_external_account i id provider subject now)
  unfolding link_external_account
  link_external_account-Keeps id provider subject = guarded_change-rule i now w _ (λ set_time late.
      guarded {R = Identity × Option Error} Keeps
        (is_some (index_where (matches provider subject) i.accounts)) _ _ w
        (λ new_account.
          settled {R = Identity × Option Error} Keeps (new_external_account id provider subject now)
            _ _ (λ e. w)
            (λ a made.
              accounts-WellFormed i (i.accounts ++ a ∷ []) now w late
                (ground (arith, w.reachable, any-append is_linked i.accounts (a ∷ [])))
                (λ h.
                  ground (arith, w.usable h, any-append is_usable_account i.accounts (a ∷ []))))))

  pub record_external_authentication-Keeps :
      (id : Uuid) → Keeps (record_external_authentication i id now)
  unfolding record_external_authentication
  record_external_authentication-Keeps id = guarded_change-rule i now w _ (λ set_time late.
      guarded {R = Identity × Option Error} Keeps (not (status_equal i.status active)) _ _ w
        (λ on. on_account-rule id _ (λ r it. record_authentication-Keeps late id it)))

  pub enable_external_account-Keeps : (id : Uuid) → Keeps (enable_external_account i id now)
  unfolding enable_external_account
  enable_external_account-Keeps id =
      guarded_change-rule i now w _
        (λ set_time late. on_account-rule id _ (λ r it. enable_account-Keeps late id it))

  pub disable_external_account-Keeps : (id : Uuid) → Keeps (disable_external_account i id now)
  unfolding disable_external_account
  disable_external_account-Keeps id = guarded_change-rule i now w _ (λ set_time late.
      on_account-rule id _ (λ r it.
        guarded {R = Identity × Option Error} Keeps (not (is_usable_account r.1)) _ _ w (λ usable.
          guarded {R = Identity × Option Error} Keeps
            (status_equal i.status active
              && not (has_usable_login_method_except i none none (some r.0)))
            _ _ w (λ left. disable_account-Keeps late id it (λ h. ground arith)))))

  pub unlink_external_account-Keeps : (id : Uuid) → Keeps (unlink_external_account i id now)
  unfolding unlink_external_account
  unlink_external_account-Keeps id = guarded_change-rule i now w _ (λ set_time late.
      on_account-rule id _ (λ r it.
        checked {R = Identity × Option Error} Keeps
          (ensure_login_method_removable i none none (some r.0)) _ _ (λ e. w)
          (λ allowed. unlink-Keeps late id it allowed)))
