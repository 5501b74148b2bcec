-- ===== src/Identity/AuthorizationTransaction/Changes.antt =====
-- What a call can do to an authorization transaction, by the relation of the child Relation; the
-- child Steps has the methods that complete a step. The package is
-- services/identity/internal/domain/authorizationtransaction.
mod Relation
mod Steps
pub use Relation.*
use careeria.Base.{
  ◌≡◌, ◌≢◌, ◌<◌, ap, ◌⊎◌, refl, Bool, true, false, not, ◌&&◌, ◌||◌, Option, none, some, List, [],
  ◌∷◌, ◌++◌, is_some, is_empty, ok, ◌>>=◌, contains, arith, Bool-cases, inl, inr,
}
use careeria.Base.Guards.{guarded, checked, settled}
use careeria.Base.Text.{Text}
use careeria.Domain.{Time, Uuid, after, is_valid_id}
use careeria.Identity.Authentication.{Method, password, Level, valid_method, method_comparable}
use careeria.Identity.AuthorizationTransaction.Step.{
  NextStep, choose_authentication_method, password_change, email_verification, phone_verification,
  mfa_enrollment, mfa, consent, ready, step_equal, can_transition_to, status_ready,
  status_completed, status_denied, VerificationReference, VerificationChannel, email, phone,
  channel_equal, AuthorizationSource, new_verification_reference,
}
use careeria.Identity.AuthorizationTransaction.{
  Error, invalid_status, invalid_step, AuthorizationTransaction, is_pending, is_ready, finish,
  ensure_granted_scopes_allowed, ensure_change_allowed, transition_to, authorize_scopes, complete,
  deny,
}
use careeria.Identity.AuthorizationTransaction.Authenticating.{
  complete_primary_authentication, complete_mfa, complete_password_change, skip_mfa_enrollment,
  complete_email_verification, complete_phone_verification, bind_email_verification,
  bind_phone_verification, begin_password_registration, is_other, apply_authentication,
  complete_required_step, reference_error_of, complete_verification, bind_verification,
  resolve_authentication_completion, complete_authentication,
}
use careeria.Identity.AuthorizationTransaction.Calls.{
  Call, authenticates, passes_mfa, changes_password, verifies_email, verifies_phone, binds_email,
  binds_phone, registers, skips_enrollment, completes, denies, authorizes, perform,
}
use careeria.Identity.AuthorizationTransaction.Changes.Steps.{
  allowed-IsInTime, transition_to-rule, apply_authentication-Outcome,
  complete_required_step-Outcome, complete_verification-Outcome, bind_verification-Outcome,
}

module _ (t : AuthorizationTransaction) (c : Call) where
  begin_password_registration-Outcome :
      (id : Uuid) (step : NextStep) (now : Time)
      → c ≡ registers id step
      → Outcome t c now (begin_password_registration t id step now)
  unfolding begin_password_registration
  begin_password_registration-Outcome id step now asked =
      checked (Outcome t c now) (ensure_change_allowed t now) _ _ refused (λ a.
        guarded (Outcome t c now) (not (is_pending t.status)) _ _ (refused _) (λ p.
          guarded (Outcome t c now)
            (not (step_equal t.next_step choose_authentication_method)
              || (is_some t.identity_id || not (is_empty t.authenticated_methods)))
            _ _ (refused _)
            (λ here. guarded (Outcome t c now) (not (is_valid_id id)) _ _ (refused _) (λ valid.
              guarded (Outcome t c now)
                (not (step_equal step email_verification)
                  && not (step_equal step phone_verification))
                _ _ (refused _)
                (λ verifies. transition_to-rule t c (Outcome t c now) step _ refused (λ edge.
                  changed (
                    register id step
                      (record {
                        asked = asked;
                        in_time = allowed-IsInTime t now a;
                        nobody = ground arith;
                        no_method = ground arith;
                      })
                      (ground arith) (ground arith) (ground arith) (ground arith) edge)))))))

  authorize_scopes-Outcome :
      (granted : List Text) (source : AuthorizationSource) (now : Time)
      → c ≡ authorizes granted source
      → Outcome t c now (authorize_scopes t granted source now)
  unfolding authorize_scopes
  authorize_scopes-Outcome granted source now asked =
      checked (Outcome t c now) (ensure_change_allowed t now) _ _ refused (λ a.
        guarded (Outcome t c now)
          (not (is_pending t.status)
            || (not (step_equal t.next_step consent) || not (is_some t.authentication_level)))
          _ _ (refused _)
          (λ here. guarded (Outcome t c now) (is_empty granted) _ _ (refused _) (λ some_scope.
            checked (Outcome t c now) (ensure_granted_scopes_allowed t granted) _ _ refused
              (λ allowed. transition_to-rule t c (Outcome t c now) ready _ refused (λ edge.
                changed (
                  authorize granted source
                    (record { asked = asked; in_time = allowed-IsInTime t now a }) (ground arith)
                    (ground arith) (ground arith) some_scope allowed))))))

  complete-Outcome : (now : Time) → c ≡ completes → Outcome t c now (complete t now)
  unfolding complete
  complete-Outcome now asked =
      checked (Outcome t c now) (ensure_change_allowed t now) _ _ refused (λ a.
        guarded (Outcome t c now) (not (is_ready t.status) || not (step_equal t.next_step ready)) _
          _ (refused _)
          (λ here.
            guarded (Outcome t c now)
              (not (is_some t.identity_id)
                || (not (is_some t.authentication_level) || not (is_some t.authenticated_at)))
              _ _ (refused _)
              (λ snapshot. changed (
                completed (record { asked = asked; in_time = allowed-IsInTime t now a })
                  (ground arith) (ground arith) (ground arith) (ground arith) (ground arith)))))

  deny-Outcome : (now : Time) → c ≡ denies → Outcome t c now (deny t now)
  unfolding deny
  deny-Outcome now asked = checked (Outcome t c now) (ensure_change_allowed t now) _ _ refused (λ a.
      guarded (Outcome t c now) (not (is_pending t.status)) _ _ (refused _) (λ p.
        changed
          (denied (record { asked = asked; in_time = allowed-IsInTime t now a }) (ground arith))))

-- Each of the twelve methods changes a transaction by a step of the relation `Change` that is its
-- own, or reports an error and leaves it as it was. A step says when a method may succeed: in time,
-- from its own next step, along an edge, for the identity that was authenticated before if there is
-- one, by a known method that was not used before, for the unexpired challenge of its channel.
pub perform-Outcome :
    (t : AuthorizationTransaction) (c : Call) (now : Time) → Outcome t c now (perform t c now)
unfolding perform complete_primary_authentication complete_mfa complete_password_change
    complete_email_verification complete_phone_verification bind_email_verification
    bind_phone_verification skip_mfa_enrollment
perform-Outcome t (authenticates id m next) now =
    apply_authentication-Outcome t (authenticates id m next) choose_authentication_method id m next
      now (inl (refl, refl))
perform-Outcome t (passes_mfa id m) now =
    apply_authentication-Outcome t (passes_mfa id m) mfa id m consent now (inr (refl, refl, refl))
perform-Outcome t (changes_password next) now =
    complete_required_step-Outcome t (changes_password next) password_change next now
      (inl (refl, refl))
perform-Outcome t (verifies_email next) now =
    complete_verification-Outcome t (verifies_email next) email_verification email next now
      (inl (refl, refl, refl))
perform-Outcome t (verifies_phone next) now =
    complete_verification-Outcome t (verifies_phone next) phone_verification phone next now
      (inr (refl, refl, refl))
perform-Outcome t (binds_email contact challenge expires) now =
    bind_verification-Outcome t (binds_email contact challenge expires) email_verification email
      contact challenge expires now refl (inl (refl, refl, refl))
perform-Outcome t (binds_phone contact challenge expires) now =
    bind_verification-Outcome t (binds_phone contact challenge expires) phone_verification phone
      contact challenge expires now refl (inr (refl, refl, refl))
perform-Outcome t (registers id step) now =
    begin_password_registration-Outcome t (registers id step) id step now refl
perform-Outcome t skips_enrollment now =
    complete_required_step-Outcome t skips_enrollment mfa_enrollment consent now
      (inr (refl, refl, refl))
perform-Outcome t completes now = complete-Outcome t completes now refl
perform-Outcome t denies now = deny-Outcome t denies now refl
perform-Outcome t (authorizes granted source) now =
    authorize_scopes-Outcome t (authorizes granted source) granted source now refl
