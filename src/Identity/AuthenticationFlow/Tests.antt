-- ===== src/Identity/AuthenticationFlow/Tests.antt =====
-- Decisions for an identity with TOTP at a client that remembers its grants.
use careeria.Base.{◌≡◌, refl, true, false, none, some, [], ◌∷◌, ok}
use careeria.Base.Text.{codes}
use careeria.Identity.Authentication.{totp}
use careeria.Identity.AuthorizationTransaction.Step.{
  choose_authentication_method, email_verification, mfa, consent, can_transition_to, status_pending,
  remembered_grant,
}
use careeria.Identity.AuthorizationTransaction.{AuthorizationTransaction}
use careeria.Identity.AuthenticationFlow.{
  verify_email, mode_remember, Facts, Input, Decision, resolve_next_step,
}
use careeria.Identity.AuthenticationFlow.Decisions.{IsSound, resolve_next_step-IsSound}
use careeria.Identity.AuthenticationFlow.Progress.{}

abbrev totp_facts : Facts
totp_facts = record {
  available_mfa_methods = totp ∷ [];
  consent_mode = mode_remember;
  remembered_grant_covers = true;
}

abbrev after_mfa : Input
after_mfa = record {
  current_step = mfa;
  requirements = record { password_change_required = true; contact_verification = verify_email };
  facts = some totp_facts;
}

abbrev at_start : Input
at_start = record {
  current_step = choose_authentication_method;
  requirements = record { password_change_required = false; contact_verification = verify_email };
  facts = none;
}

abbrev remembered : Decision
remembered = record { next_step = consent; authorization_source = some remembered_grant }

abbrev to_email : Decision
to_email = record { next_step = email_verification; authorization_source = none }

remembered_decided : resolve_next_step after_mfa ≡ ok remembered
unfolding resolve_next_step can_transition_to
remembered_decided = refl

email_decided : resolve_next_step at_start ≡ ok to_email
unfolding resolve_next_step can_transition_to
email_decided = refl

resolve_next_step-IsSound_example : IsSound mfa (some totp_facts) remembered
resolve_next_step-IsSound_example =
    resolve_next_step-IsSound after_mfa remembered remembered_decided

mfa_to_consent : can_transition_to mfa consent ≡ true
unfolding can_transition_to
mfa_to_consent = refl

abbrev sign_in : AuthorizationTransaction
sign_in = record {
  id = 1;
  oauth_client_id = 2;
  redirect_uri = codes "https://app.careeria.example/callback";
  requested_scopes = codes "jobs:read" ∷ [];
  state = none;
  nonce = none;
  pkce = none;
  status = status_pending;
  next_step = choose_authentication_method;
  identity_id = none;
  authentication_level = none;
  authenticated_methods = [];
  granted_scopes = [];
  authorization_source = none;
  verification = none;
  authenticated_at = none;
  expires_at = 1000;
}
