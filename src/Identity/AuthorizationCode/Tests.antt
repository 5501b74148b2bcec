-- ===== src/Identity/AuthorizationCode/Tests.antt =====
-- A sign-in by password alone, and the code that it is given.
use careeria.Base.{◌≡◌, refl, false, none, some, List, [], ◌∷◌, arith, ok}
use careeria.Base.Text.{Text, codes}
use careeria.Domain.{Time, has_duplicates}
use careeria.Identity.Authentication.{password, single_factor, resolve_level}
use careeria.Identity.AuthorizationTransaction.Step.{
  choose_authentication_method, mfa_enrollment, can_transition_to, status_pending, status_completed,
  user_consent,
}
use careeria.Identity.AuthorizationTransaction.{
  AuthorizationTransaction, complete, authorize_scopes,
}
use careeria.Identity.AuthorizationTransaction as transaction
use careeria.Identity.AuthorizationTransaction.Authenticating.{
  complete_primary_authentication, skip_mfa_enrollment,
}
use careeria.Identity.AuthorizationTransaction.Calls.{
  Call, authenticates, skips_enrollment, authorizes, completes, run,
}
use careeria.Identity.AuthorizationCode.{AuthorizationCode, new}
use careeria.Identity.AuthorizationCode.Exchange.{completed_issues_code}

abbrev uri : Text
uri = codes "https://app.careeria.example/callback"

abbrev asked : List Text
asked = codes "jobs:read" ∷ []

abbrev sign_in : AuthorizationTransaction
sign_in = record {
  id = 1;
  oauth_client_id = 2;
  redirect_uri = uri;
  requested_scopes = asked;
  state = none;
  nonce = none;
  pkce = none;
  status = status_pending;
  next_step = choose_authentication_method;
  identity_id = none;
  authentication_level = none;
  authenticated_methods = [];
  granted_scopes = [];
  authorization_source = none;
  verification = none;
  authenticated_at = none;
  expires_at = 1000;
}

abbrev calls : List (Call × Time)
calls =
    (authenticates 7 password mfa_enrollment, 200)
    ∷ (skips_enrollment, 230)
    ∷ (authorizes asked user_consent, 240)
    ∷ (completes, 250)
    ∷ []

sign_in_made : transaction.new 1 2 uri asked none none false none 1000 100 ≡ ok sign_in
unfolding transaction.new has_duplicates
sign_in_made = refl

sign_in_completed : (run sign_in calls).0.status ≡ status_completed
unfolding run complete authorize_scopes complete_primary_authentication skip_mfa_enrollment
    can_transition_to resolve_level has_duplicates
sign_in_completed = refl

sign_in_identity : (run sign_in calls).0.identity_id ≡ some 7
unfolding run complete authorize_scopes complete_primary_authentication skip_mfa_enrollment
    can_transition_to resolve_level has_duplicates
sign_in_identity = refl

sign_in_level : (run sign_in calls).0.authentication_level ≡ some single_factor
unfolding run complete authorize_scopes complete_primary_authentication skip_mfa_enrollment
    can_transition_to resolve_level has_duplicates
sign_in_level = refl

completed_issues_code_example :
    let u = (run sign_in calls).0 in
    (c : AuthorizationCode) × (new
        (codes "h")
        2
        uri
        7
        single_factor
        u.authenticated_methods
        u.granted_scopes
        none
        none
        230
        600
        260
      ≡ ok c)
    × (c.scopes ≡ u.granted_scopes)
    × (c.issued_at ≡ 260)
completed_issues_code_example =
    completed_issues_code 1 2 uri asked none none false none 1000 100 sign_in calls (codes "h") 7
      single_factor 230 260 600 sign_in_made sign_in_completed sign_in_identity sign_in_level
      (omega arith) (omega arith) (omega arith) (omega arith) (omega arith)
