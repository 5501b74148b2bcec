-- ===== src/Identity/Mfa/Calls.antt =====
-- Sequences of calls on an MFA configuration of services/identity/internal/domain/mfa/mfa.go.
use careeria.Base.{◌≡◌, refl, Bool, Option, List, [], ◌∷◌, is_some, true}
use careeria.Base.Int.{ℤ}
use careeria.Base.Text.{Text}
use careeria.Domain.{Time, Uuid}
use careeria.Identity.Mfa.Types.{Error, Bytes, TotpAlgorithm}
use careeria.Identity.Mfa.{
  Mfa, rename_factor, confirm_factor, set_primary_factor, disable_factor, enable_factor,
  enroll_totp, record_totp_factor_use, enroll_web_authn, record_web_authn_factor_use,
}
use careeria.Identity.Mfa.Outcomes.{
  Outcome, refuses, keeps, changes, promotes, enrols, rename_factor-Outcome, confirm_factor-Outcome,
  disable_factor-Outcome, enable_factor-Outcome, record_totp_factor_use-Outcome,
  record_web_authn_factor_use-Outcome,
}
use careeria.Identity.Mfa.SettingPrimary.{set_primary_factor-Outcome}
use careeria.Identity.Mfa.Enrolling.{enroll_totp-Outcome, enroll_web_authn-Outcome}

pub data Call : Type 0 where
  renames : Uuid → Option Text → Call
  confirms : Uuid → Call
  sets_primary : Uuid → Call
  disables : Uuid → Call
  enables : Uuid → Call
  enrols_totp : Uuid → Option Text → Bytes → Text → TotpAlgorithm → ℤ → ℤ → Call
  records_totp : Uuid → ℤ → Call
  enrols_web_authn :
      Uuid → Option Text → Bytes → Bytes → ℤ → Option Uuid → List Text → Bool → Bool → Call
  records_web_authn : Uuid → ℤ → Bool → Call

unfoldable pub perform : Mfa → Call → Time → Mfa × Option Error
perform m (renames id name) now = rename_factor m id name now
perform m (confirms id) now = confirm_factor m id now
perform m (sets_primary id) now = set_primary_factor m id now
perform m (disables id) now = disable_factor m id now
perform m (enables id) now = enable_factor m id now
perform m (enrols_totp id name secret key_ref algorithm digits period) now =
    enroll_totp m id name secret key_ref algorithm digits period now
perform m (records_totp id step) now = record_totp_factor_use m id step now
perform m (enrols_web_authn id name credential_id public_key count aaguid transports eligible state)
      now =
    enroll_web_authn m id name credential_id public_key count aaguid transports eligible state now
perform m (records_web_authn id count backup) now =
    record_web_authn_factor_use m id count backup now

unfoldable pub run : Mfa → List (Call × Time) → Mfa
unfolding perform
run m [] = m
run m ((c, now) ∷ cs) = run (perform m c now).0 cs

pub perform-Outcome : (m : Mfa) (c : Call) (now : Time) → Outcome m (perform m c now)
unfolding perform
perform-Outcome m (renames id name) now = rename_factor-Outcome m id now name
perform-Outcome m (confirms id) now = confirm_factor-Outcome m id now
perform-Outcome m (sets_primary id) now = set_primary_factor-Outcome m id now
perform-Outcome m (disables id) now = disable_factor-Outcome m id now
perform-Outcome m (enables id) now = enable_factor-Outcome m id now
perform-Outcome m (enrols_totp id name secret key_ref algorithm digits period) now =
    enroll_totp-Outcome m id name now secret key_ref algorithm digits period
perform-Outcome m (records_totp id step) now = record_totp_factor_use-Outcome m id now step
perform-Outcome m
      (enrols_web_authn id name credential_id public_key count aaguid transports eligible state)
      now =
    enroll_web_authn-Outcome m id name now credential_id public_key count aaguid transports eligible
      state
perform-Outcome m (records_web_authn id count backup) now =
    record_web_authn_factor_use-Outcome m id now count backup

-- A method of the MFA configuration that reports an error leaves the configuration as it was.
pub mfa_error_unchanged :
    (m : Mfa) (c : Call) (now : Time) → is_some (perform m c now).1 ≡ true → (perform m c now).0 ≡ m
mfa_error_unchanged m c now h = go (perform m c now) (perform-Outcome m c now) h
  where
    go : (r : Mfa × Option Error) → Outcome m r → is_some r.1 ≡ true → r.0 ≡ m
    go _ refuses h = refl
    go _ keeps h = refl
    go _ (changes id found a) h = cc
    go _ (promotes p) h = cc
    go _ (enrols f) h = cc
