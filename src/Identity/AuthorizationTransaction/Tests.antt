-- ===== src/Identity/AuthorizationTransaction/Tests.antt =====
-- A sign-in by password and TOTP, which verifies an email address on the way and completes.
use careeria.Base.{
  ◌≡◌, ◌≤◌, refl, true, false, none, some, List, [], ◌∷◌, is_some, is_empty, arith, ok, Distinct,
  Within, nat_comparable, list_comparable,
}
use careeria.Base.Text.{Text, codes}
use careeria.Domain.{Time, has_duplicates}
use careeria.Identity.Authentication.{Level, password, totp, resolve_level}
use careeria.Identity.AuthorizationTransaction.Step.{
  choose_authentication_method, email_verification, mfa, can_transition_to, status_pending,
  status_ready, status_completed, user_consent,
}
use careeria.Identity.AuthorizationTransaction.{
  AuthorizationTransaction, new, complete, authorize_scopes,
}
use careeria.Identity.AuthorizationTransaction.Authenticating.{
  complete_mfa, complete_email_verification, bind_email_verification,
  complete_primary_authentication,
}
use careeria.Identity.AuthorizationTransaction.Calls.{
  Call, authenticates, passes_mfa, verifies_email, binds_email, completes, authorizes, perform, run,
}
use careeria.Identity.AuthorizationTransaction.Changes.{Outcome, perform-Outcome}
use careeria.Identity.AuthorizationTransaction.Budget.{new-run-le}
use careeria.Identity.AuthorizationTransaction.Guarantees.{completed_authorized, ready_completes}

abbrev asked : List Text
asked = codes "jobs:read" ∷ codes "jobs:write" ∷ []

abbrev sign_in : AuthorizationTransaction
sign_in = record {
  id = 1;
  oauth_client_id = 2;
  redirect_uri = codes "https://app.careeria.example/callback";
  requested_scopes = asked;
  state = none;
  nonce = none;
  pkce = none;
  status = status_pending;
  next_step = choose_authentication_method;
  identity_id = none;
  authentication_level = none;
  authenticated_methods = [];
  granted_scopes = [];
  authorization_source = none;
  verification = none;
  authenticated_at = none;
  expires_at = 1000;
}

abbrev to_ready : List (Call × Time)
to_ready =
    (authenticates 7 password email_verification, 200)
    ∷ (binds_email 5 6 400, 210)
    ∷ (verifies_email mfa, 220)
    ∷ (passes_mfa 7 totp, 230)
    ∷ (authorizes (codes "jobs:read" ∷ []) user_consent, 240)
    ∷ []

abbrev to_completed : List (Call × Time)
to_completed =
    (authenticates 7 password email_verification, 200)
    ∷ (binds_email 5 6 400, 210)
    ∷ (verifies_email mfa, 220)
    ∷ (passes_mfa 7 totp, 230)
    ∷ (authorizes (codes "jobs:read" ∷ []) user_consent, 240)
    ∷ (completes, 250)
    ∷ []

sign_in_made :
    new 1 2 (codes "https://app.careeria.example/callback") asked none none false none 1000 100
    ≡ ok sign_in
unfolding new has_duplicates
sign_in_made = refl

sign_in_ready : (run sign_in to_ready).0.status ≡ status_ready
unfolding run authorize_scopes complete_mfa complete_email_verification bind_email_verification
    complete_primary_authentication can_transition_to resolve_level has_duplicates
sign_in_ready = refl

sign_in_completed : (run sign_in to_completed).0.status ≡ status_completed
unfolding run complete authorize_scopes complete_mfa complete_email_verification
    bind_email_verification complete_primary_authentication can_transition_to resolve_level
    has_duplicates
sign_in_completed = refl

perform-Outcome_example :
    Outcome sign_in (passes_mfa 7 totp) 200 (perform sign_in (passes_mfa 7 totp) 200)
perform-Outcome_example = perform-Outcome sign_in (passes_mfa 7 totp) 200

new-run-le_example : (run sign_in to_completed).1 ≤ 9
new-run-le_example =
    new-run-le 1 2 (codes "https://app.careeria.example/callback") asked none none false none 1000
      100 sign_in to_completed sign_in_made

completed_authorized_example :
    let u = (run sign_in to_completed).0 in
    (is_some u.identity_id ≡ true)
    × ((l : Level) × (u.authentication_level ≡ some l)
        × (resolve_level u.authenticated_methods ≡ ok l))
    × (is_empty u.granted_scopes ≡ false)
    × Distinct u.granted_scopes
    × Within u.granted_scopes asked
completed_authorized_example =
    completed_authorized 1 2 (codes "https://app.careeria.example/callback") asked none none false
      none 1000 100 sign_in to_completed sign_in_made sign_in_completed

ready_completes_example :
    ((complete (run sign_in to_ready).0 250).1 ≡ none)
    × ((complete (run sign_in to_ready).0 250).0.status ≡ status_completed)
ready_completes_example =
    ready_completes 1 2 (codes "https://app.careeria.example/callback") asked none none false none
      1000 100 250 sign_in to_ready sign_in_made sign_in_ready (omega arith) (omega arith)
