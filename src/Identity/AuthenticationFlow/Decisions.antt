-- ===== src/Identity/AuthenticationFlow/Decisions.antt =====
-- What `ResolveNextStep` decides: services/identity/internal/domain/authenticationflow/policy.go.
use careeria.Base.{
  ◌≡◌, ◌≢◌, ◌⊎◌, inl, inr, refl, subst, true, false, not, ◌||◌, ◌&&◌, Option, none, some,
  if◌then◌else◌, Result, ok, err, arith, Bool-cases,
}
use careeria.Base.Guards.{guarded, branched, checked, found}
use careeria.Identity.AuthorizationTransaction.Step.{
  NextStep, password_change, mfa_enrollment, mfa, consent, step_equal, can_transition_to,
  AuthorizationSource, remembered_grant, trusted_client,
}
use careeria.Identity.AuthenticationFlow.{
  Error, ContactVerification, verify_none, verify_email, verify_phone, other_contact, ConsentMode,
  mode_required, mode_remember, mode_trusted, other_mode, validate, Facts, has_usable_mfa, Input,
  Decision, decide, verification_next_step, can_verify, decide_consent, decide_by_facts,
  resolve_next_step,
}

-- The source of an authorization without consent fits the facts.
abbrev pub IsAllowed : Option AuthorizationSource → Option Facts → Type 0
IsAllowed none f = Unit
IsAllowed (some source) none = ⊥
IsAllowed (some source) (some f) =
    ((source ≡ remembered_grant)
      × (f.consent_mode ≡ mode_remember)
      × (f.remembered_grant_covers ≡ true))
    ⊎ ((source ≡ trusted_client) × (f.consent_mode ≡ mode_trusted))

-- What is true of every decision.
pub record IsSound (current : NextStep) (facts : Option Facts) (d : Decision) : Type 0 where
  pub legal : can_transition_to current d.next_step ≡ true
  pub after_mfa :
      step_equal d.next_step consent ≡ true
      → (step_equal current mfa || step_equal current mfa_enrollment) ≡ true
  pub source_ok : IsAllowed d.authorization_source facts
  pub source_last : d.authorization_source ≢ none → step_equal d.next_step consent ≡ true

abbrev Sound : NextStep → Option Facts → Result Error Decision → Type 0
Sound current facts (err e) = Unit
Sound current facts (ok d) = IsSound current facts d

no_bypass :
    (current : NextStep) (f : Facts)
    → can_transition_to current (if has_usable_mfa f then mfa else mfa_enrollment) ≡ false
    → can_transition_to current consent ≡ true
    → (step_equal current mfa || step_equal current mfa_enrollment) ≡ true
unfolding can_transition_to
no_bypass current f h k = ground arith

consent-Sound :
    (current : NextStep) (f : Facts)
    → can_transition_to current consent ≡ true
    → (step_equal current mfa || step_equal current mfa_enrollment) ≡ true
    → Sound current (some f) (decide_consent f)
unfolding decide_consent
consent-Sound current f edge late = go f.consent_mode refl
  where
    plain : IsSound current (some f) (record { next_step = consent; authorization_source = none })
    plain = record {
      legal = edge;
      after_mfa = λ h. late;
      source_ok = tt;
      source_last = λ h. absurd (h refl);
    }

    go : (mode : ConsentMode) → f.consent_mode ≡ mode → Sound current (some f) (decide_consent f)
    go mode_required e = simp (decide_consent, e) plain
    go mode_remember e = elim (Bool-cases f.remembered_grant_covers) [
      | inl covers ↦
          simp (decide_consent, e, covers)
            (record {
              legal = edge;
              after_mfa = λ h. late;
              source_ok = inl (refl, e, covers);
              source_last = λ h. refl;
            })
      | inr none_covers ↦ simp (decide_consent, e, none_covers) plain
    ]
    go mode_trusted e =
        simp (decide_consent, e)
          (record {
            legal = edge;
            after_mfa = λ h. late;
            source_ok = inr (refl, e);
            source_last = λ h. refl;
          })
    go (other_mode s) e = simp (decide_consent, e) tt

decide_by_facts-Sound :
    (current : NextStep) (facts : Option Facts)
    → Sound current facts (decide_by_facts current facts)
unfolding decide_by_facts
decide_by_facts-Sound current none = tt
decide_by_facts-Sound current (some f) =
    branched (Sound current (some f))
      (can_transition_to current (if has_usable_mfa f then mfa else mfa_enrollment)) _ _
      (λ edge. record {
        legal = edge;
        after_mfa = λ h. ground arith;
        source_ok = tt;
        source_last = λ h. absurd (h refl);
      })
      (λ past.
        guarded (Sound current (some f)) (not (can_transition_to current consent)) _ _ tt (λ edge.
          consent-Sound current f (ground arith) (no_bypass current f past (ground arith))))

verification_not_consent :
    (c : ContactVerification) (s : NextStep)
    → verification_next_step c ≡ some s
    → step_equal s consent ≡ false
verification_not_consent verify_none s h = cc
verification_not_consent verify_email s h = ground arith
verification_not_consent verify_phone s h = ground arith
verification_not_consent (other_contact t) s h = cc

resolve_next_step-Sound : (i : Input) → Sound i.current_step i.facts (resolve_next_step i)
unfolding resolve_next_step
resolve_next_step-Sound i =
    checked P (validate i.requirements) _ _ (λ e. tt)
      (λ v.
        branched P
          (i.requirements.password_change_required
            && can_transition_to i.current_step password_change)
          _ _ (λ change. plain password_change (ground arith) (λ h. ground arith))
          (λ stay.
            branched P (can_verify i.current_step step) _ _
              (λ verifies.
                found P step _ _ (decide_by_facts-Sound i.current_step i.facts)
                  (λ s e. plain s (verified s e verifies) (late s e)))
              (λ no_contact. decide_by_facts-Sound i.current_step i.facts)))
  where
    P : Result Error Decision → Type 0
    P = Sound i.current_step i.facts

    step : Option NextStep
    step = verification_next_step i.requirements.contact_verification

    plain :
        (s : NextStep)
        → can_transition_to i.current_step s ≡ true
        → (step_equal s consent ≡ true
            → (step_equal i.current_step mfa || step_equal i.current_step mfa_enrollment) ≡ true)
        → P (decide s)
    plain s edge after = record {
      legal = edge;
      after_mfa = after;
      source_ok = tt;
      source_last = λ h. absurd (h refl);
    }

    verified :
        (s : NextStep)
        → step ≡ some s
        → can_verify i.current_step step ≡ true
        → can_transition_to i.current_step s ≡ true
    verified s e h = rw e at h

    late :
        (s : NextStep)
        → step ≡ some s
        → step_equal s consent ≡ true
        → (step_equal i.current_step mfa || step_equal i.current_step mfa_enrollment) ≡ true
    late s e h = cc (verification_not_consent i.requirements.contact_verification s e, h)

-- Each decision is a step that `CanTransitionTo` allows. It is consent only from one of the two MFA
-- steps, so that no sign-in gets round them. A source of authorization comes only with consent, and
-- is the remembered grant of a client in that mode, where the grant covers, or the trust of a
-- trusted client.
pub resolve_next_step-IsSound :
    (i : Input) (d : Decision) → resolve_next_step i ≡ ok d → IsSound i.current_step i.facts d
resolve_next_step-IsSound i d h = subst (Sound i.current_step i.facts) h (resolve_next_step-Sound i)
