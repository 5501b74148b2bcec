-- ===== src/Identity/AuthorizationTransaction/Calls.antt =====
-- The calls of the methods of an authorization transaction.
use careeria.Base.{ℕ, ◌+◌, Option, List, [], ◌∷◌, if◌then◌else◌, is_some}
use careeria.Base.Text.{Text}
use careeria.Domain.{Time, Uuid}
use careeria.Identity.Authentication.{Method, method_comparable}
use careeria.Identity.AuthorizationTransaction.Step.{NextStep, AuthorizationSource}
use careeria.Identity.AuthorizationTransaction.{
  Error, AuthorizationTransaction, authorize_scopes, complete, deny,
}
use careeria.Identity.AuthorizationTransaction.Authenticating.{
  complete_primary_authentication, complete_mfa, complete_password_change, skip_mfa_enrollment,
  complete_email_verification, complete_phone_verification, bind_email_verification,
  bind_phone_verification, begin_password_registration,
}

pub data Call : Type 0 where
  authenticates : Uuid → Method → NextStep → Call
  passes_mfa : Uuid → Method → Call
  changes_password verifies_email verifies_phone : NextStep → Call
  binds_email binds_phone : Uuid → Uuid → Time → Call
  registers : Uuid → NextStep → Call
  skips_enrollment completes denies : Call
  authorizes : List Text → AuthorizationSource → Call

unfoldable pub perform :
    AuthorizationTransaction → Call → Time → AuthorizationTransaction × Option Error
perform t (authenticates id method next) now = complete_primary_authentication t id method next now
perform t (passes_mfa id method) now = complete_mfa t id method now
perform t (changes_password next) now = complete_password_change t next now
perform t (verifies_email next) now = complete_email_verification t next now
perform t (verifies_phone next) now = complete_phone_verification t next now
perform t (binds_email contact challenge expires) now =
    bind_email_verification t contact challenge expires now
perform t (binds_phone contact challenge expires) now =
    bind_phone_verification t contact challenge expires now
perform t (registers id step) now = begin_password_registration t id step now
perform t skips_enrollment now = skip_mfa_enrollment t now
perform t completes now = complete t now
perform t denies now = deny t now
perform t (authorizes scopes source) now = authorize_scopes t scopes source now

-- Calls in a row, with the number of those that reported no error.
unfoldable pub run : AuthorizationTransaction → List (Call × Time) → AuthorizationTransaction × ℕ
unfolding perform
run t [] = (t, 0)
run t ((c, now) ∷ cs) =
    let (u, e) = perform t c now in let (v, n) = run u cs in (v, if is_some e then n else n + 1)
