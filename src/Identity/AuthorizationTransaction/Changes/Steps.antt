-- ===== src/Identity/AuthorizationTransaction/Changes/Steps.antt =====
-- The methods of authentication.go and mfa_enrollment.go that complete a step of a sign-in or bind a
-- verification to it: services/identity/internal/domain/authorizationtransaction.
use careeria.Base.{
  ◌≡◌, ◌≢◌, ◌<◌, ap, ◌⊎◌, refl, true, false, not, ◌||◌, Option, none, some, [], ◌∷◌, ◌++◌, is_some,
  ok, ◌>>=◌, contains, arith, Bool-cases, inl, inr,
}
use careeria.Base.Guards.{guarded, checked, settled}
use careeria.Domain.{Time, Uuid, after, is_valid_id}
use careeria.Identity.Authentication.{Method, Level, valid_method, method_comparable}
use careeria.Identity.AuthorizationTransaction.Step.{
  NextStep, step_equal, can_transition_to, VerificationReference, VerificationChannel,
  channel_equal, new_verification_reference,
}
use careeria.Identity.AuthorizationTransaction.{
  Error, invalid_status, invalid_step, AuthorizationTransaction, is_pending, ensure_change_allowed,
  transition_to,
}
use careeria.Identity.AuthorizationTransaction.Authenticating.{
  is_other, apply_authentication, complete_required_step, reference_error_of, complete_verification,
  bind_verification, resolve_authentication_completion, complete_authentication,
}
use careeria.Identity.AuthorizationTransaction.Calls.{Call}
use careeria.Identity.AuthorizationTransaction.Changes.Relation.{
  IsInTime, Authenticates, Passes, Verifies, Binds, is_verification, moved_to, Outcome, refused,
  changed, authenticate, pass, verify, bind,
}

transition_to-cases :
    (t : AuthorizationTransaction) (step : NextStep)
    → ((e : Error) × (transition_to t step ≡ (t, some e)))
      ⊎ ((can_transition_to t.next_step step ≡ true)
          × (transition_to t step ≡ (moved_to t step, none)))
unfolding transition_to
transition_to-cases t step = elim (Bool-cases (is_pending t.status)) [
  | inr off ↦ inl (invalid_status, rw off)
  | inl pending ↦ elim (Bool-cases (can_transition_to t.next_step step)) [
    | inr stuck ↦ inl (invalid_step, rw (pending, stuck))
    | inl edge ↦ inr (edge, rw (pending, edge))
  ]
]

pub allowed-IsInTime :
    (t : AuthorizationTransaction) (now : Time)
    → ensure_change_allowed t now ≡ none
    → IsInTime t now
unfolding ensure_change_allowed
allowed-IsInTime t now h = (ground arith, ground arith)

same_identity :
    (known : Option Uuid) (id : Uuid)
    → is_other known id ≡ false
    → (known ≡ none) ⊎ (known ≡ some id)
same_identity none id h = inl refl
same_identity (some i) id h = inr (ap some (ground arith))

reference-bound :
    (v : Option VerificationReference) (channel : VerificationChannel) (now : Time)
    → reference_error_of v channel now ≡ none
    → (r : VerificationReference) × (v ≡ some r)
      × (channel_equal r.channel channel ≡ true)
      × (now < r.expires_at)
unfolding reference_error_of
reference-bound none channel now h = cc h
reference-bound (some r) channel now h = (r, refl, ground arith, ground arith)

reference-made :
    (channel : VerificationChannel) (contact challenge : Uuid) (expires : Time)
    (v : VerificationReference)
    → new_verification_reference channel contact challenge expires ≡ ok v
    → (v ≡ record {
      channel = channel;
      contact_id = contact;
      challenge_id = challenge;
      expires_at = expires;
    })
      × (contact ≢ 0)
      × (challenge ≢ 0)
unfolding new_verification_reference
reference-made channel contact challenge expires v h =
    (ground arith, λ e. ground arith, λ e. ground arith)

module _ (t : AuthorizationTransaction) (c : Call) where
  pub transition_to-rule {ℓ} :
      (P : AuthorizationTransaction × Option Error → Type ℓ) (step : NextStep)
      (f : AuthorizationTransaction → AuthorizationTransaction × Option Error)
      → ((e : Error) → P (t, some e))
      → (can_transition_to t.next_step step ≡ true → P (f (moved_to t step)))
      → P (transition_to t step >>= f)
  transition_to-rule P step f no_move done = elim (transition_to-cases t step) [
    | inl (e, stuck) ↦ rw stuck (no_move e)
    | inr (edge, moved) ↦ rw moved (done edge)
  ]

  pub apply_authentication-Outcome :
      (step : NextStep) (id : Uuid) (m : Method) (next : NextStep) (now : Time)
      → Authenticates c step id m next
      → Outcome t c now (apply_authentication t step id m next now)
  unfolding apply_authentication
  apply_authentication-Outcome step id m next now asked =
      checked P (ensure_change_allowed t now) _ _ refused (λ a.
        guarded P (not (is_pending t.status)) _ _ (refused _) (λ p.
          guarded P (not (step_equal t.next_step step) || is_some t.authentication_level) _ _
            (refused _)
            (λ here. guarded P (not (is_valid_id id)) _ _ (refused _) (λ valid.
              guarded P (not (valid_method m)) _ _ (refused _) (λ known.
                guarded P (is_other t.identity_id id) _ _ (refused _) (λ same.
                  guarded P (contains t.authenticated_methods m) _ _ (refused _) (λ fresh.
                    settled P
                      (resolve_authentication_completion (t.authenticated_methods ++ m ∷ []) next) _
                      _ refused
                      (λ level r. transition_to-rule P next _ refused (λ edge. changed (
                        authenticate id m next
                          (record {
                            step = step;
                            asked = asked;
                            in_time = allowed-IsInTime t now a;
                            here = ground (arith, here);
                            known = ground (arith, known);
                            same = same_identity t.identity_id id same;
                            unused = fresh;
                          })
                          level (ground arith) (ground arith) (ground arith) r edge))))))))))
    where
      P : AuthorizationTransaction × Option Error → Type 0
      P = Outcome t c now

  complete_required_step-rule {ℓ} :
      (P : AuthorizationTransaction × Option Error → Type ℓ) (step next : NextStep) (now : Time)
      → ((e : Error) → P (t, some e))
      → ((level : Option Level)
          → IsInTime t now
          → step_equal t.next_step step ≡ true
          → is_pending t.status ≡ true
          → is_some t.authentication_level ≡ false
          → is_some t.identity_id ≡ true
          → resolve_authentication_completion t.authenticated_methods next ≡ ok level
          → can_transition_to t.next_step next ≡ true
          → P (complete_authentication (moved_to t next) level now, none))
      → P (complete_required_step t step next now)
  unfolding complete_required_step
  complete_required_step-rule P step next now bad done =
      checked P (ensure_change_allowed t now) _ _ bad (λ a.
        guarded P (not (is_pending t.status)) _ _ (bad _) (λ p.
          guarded P
            (not (step_equal t.next_step step)
              || (is_some t.authentication_level || not (is_some t.identity_id)))
            _ _ (bad _)
            (λ here.
              settled P (resolve_authentication_completion t.authenticated_methods next) _ _ bad
                (λ level r. transition_to-rule P next _ bad (λ edge.
                  done level (allowed-IsInTime t now a) (ground arith) (ground arith) (ground arith)
                    (ground arith) r edge)))))

  pub complete_required_step-Outcome :
      (step next : NextStep) (now : Time)
      → Passes c step next
      → Outcome t c now (complete_required_step t step next now)
  complete_required_step-Outcome step next now asked =
      complete_required_step-rule (Outcome t c now) step next now refused
        (λ level a here p l i r edge. changed (
          pass next (record { step = step; asked = asked; in_time = a; here = here }) level p l i r
            edge))

  pub complete_verification-Outcome :
      (step : NextStep) (channel : VerificationChannel) (next : NextStep) (now : Time)
      → Verifies c step channel next
      → Outcome t c now (complete_verification t step channel next now)
  unfolding complete_verification
  complete_verification-Outcome step channel next now asked =
      guarded (Outcome t c now)
        (not (step_equal t.next_step step) || not (can_transition_to t.next_step next)) _ _
        (refused _)
        (λ here.
          checked (Outcome t c now) (reference_error_of t.verification channel now) _ _ refused
            (λ e.
              let (v, bound, of_channel, unexpired) =
                reference-bound t.verification channel now e in
              complete_required_step-rule
                (λ r. Outcome t c now (r >>= λ done. (record done { verification = none }, none)))
                step next now refused
                (λ level a at p l i r edge. changed (
                  verify next
                    (record {
                      step = step;
                      channel = channel;
                      reference = v;
                      asked = asked;
                      in_time = a;
                      here = at;
                      bound = bound;
                      of_channel = of_channel;
                      unexpired = unexpired;
                    })
                    level p l i (ap is_some bound) r edge))))

  pub bind_verification-Outcome :
      (step : NextStep) (channel : VerificationChannel) (contact challenge : Uuid)
      (expires now : Time)
      → is_verification step ≡ true
      → Binds c step (record {
        channel = channel;
        contact_id = contact;
        challenge_id = challenge;
        expires_at = expires;
      })
      → Outcome t c now (bind_verification t step channel contact challenge expires now)
  unfolding bind_verification
  bind_verification-Outcome step channel contact challenge expires now verifies asked =
      checked P (ensure_change_allowed t now) _ _ refused (λ a.
        guarded P (not (is_pending t.status) || not (step_equal t.next_step step)) _ _ (refused _)
          (λ here. guarded P (is_some t.verification) _ _ (refused _) (λ free.
            guarded P (not (after expires now)) _ _ (refused _) (λ later.
              settled P (new_verification_reference channel contact challenge expires) _ _
                (λ e. refused _)
                (λ v made.
                  let (same, some_contact, some_challenge) =
                    reference-made channel contact challenge expires v made in
                  rw same (
                    changed (
                      bind _
                        (record {
                          step = step;
                          asked = asked;
                          in_time = allowed-IsInTime t now a;
                          here = ground arith;
                          later = ground arith;
                          contact_known = some_contact;
                          challenge_known = some_challenge;
                        })
                        (ground arith) free (ground arith))))))))
    where
      P : AuthorizationTransaction × Option Error → Type 0
      P = Outcome t c now
