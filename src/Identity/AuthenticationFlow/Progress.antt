-- ===== src/Identity/AuthenticationFlow/Progress.antt =====
-- When `ResolveNextStep` decides on a step, and how the authorization transaction takes the decision
-- for a first authentication: services/identity/internal/domain/authenticationflow and
-- authorizationtransaction.
use careeria.Base.{
  ◌≡◌, ◌≢◌, ◌<◌, inl, inr, refl, Bool, true, false, not, ◌||◌, ◌&&◌, Option, none, some, [], ◌∷◌,
  if◌then◌else◌, Result, ok, arith, Bool-cases, is_some, contains, ◌++◌,
}
use careeria.Base.Guards.{branched, found, past, passed, settled_ok}
use careeria.Identity.AuthorizationTransaction.Step.{
  NextStep, choose_authentication_method, password_change, mfa_enrollment, mfa, consent, step_equal,
  can_transition_to, remembered_grant, trusted_client,
}
use careeria.Domain.{Time, Uuid, is_valid_id}
use careeria.Identity.Authentication.{Method, valid_method, method_comparable}
use careeria.Identity.AuthorizationTransaction.Step.{status_pending}
use careeria.Identity.AuthorizationTransaction as transaction
use careeria.Identity.AuthorizationTransaction.{
  is_pending, AuthorizationTransaction, ensure_change_allowed, transition_to,
}
use careeria.Identity.AuthorizationTransaction.Authenticating.{
  is_other, complete_primary_authentication, apply_authentication,
  resolve_authentication_completion,
}
use careeria.Identity.AuthenticationFlow.{
  Error, valid_contact, ConsentMode, mode_required, mode_remember, mode_trusted, other_mode,
  valid_mode, validate, Facts, has_usable_mfa, Input, Decision, verification_next_step, can_verify,
  decide_consent, decide_by_facts, resolve_next_step,
}
use careeria.Identity.AuthenticationFlow.Decisions.{IsSound, resolve_next_step-IsSound}

abbrev Decides : Result Error Decision → Type 0
Decides r = (d : Decision) × (r ≡ ok d)

decide_consent-progress :
    (f : Facts) (mode : ConsentMode)
    → f.consent_mode ≡ mode
    → valid_mode mode ≡ true
    → Decides (decide_consent f)
unfolding decide_consent
decide_consent-progress f mode_required e h =
    (record { next_step = consent; authorization_source = none }, simp (decide_consent, e))
decide_consent-progress f mode_remember e h = elim (Bool-cases f.remembered_grant_covers) [
  | inl covers ↦ (
    record { next_step = consent; authorization_source = some remembered_grant },
    simp (decide_consent, e, covers),
  )
  | inr bare ↦
      (record { next_step = consent; authorization_source = none }, simp (decide_consent, e, bare))
]
decide_consent-progress f mode_trusted e h = (
  record { next_step = consent; authorization_source = some trusted_client },
  simp (decide_consent, e),
)
decide_consent-progress f (other_mode s) e h = absurd (contra h)
  where
    contra : false ≡ true → ⊥
    contra h = cc

decide_by_facts-progress :
    (current : NextStep) (f : Facts)
    → valid_mode f.consent_mode ≡ true
    → can_transition_to current consent ≡ true
    → Decides (decide_by_facts current (some f))
unfolding decide_by_facts
decide_by_facts-progress current f mode_ok edge =
    branched Decides (can_transition_to current (if has_usable_mfa f then mfa else mfa_enrollment))
      _ _ (λ h. (_, refl))
      (λ past.
        branched Decides (not (can_transition_to current consent)) _ _
          (λ stuck. absurd (contra stuck edge))
          (λ h. decide_consent-progress f f.consent_mode refl mode_ok))
  where
    contra : {b : Bool} → not b ≡ true → b ≡ true → ⊥
    contra {b} h k = ground arith

-- With valid requirements and facts whose consent mode is valid, the flow never stops before
-- consent: from each step that consent may follow, there is a decision.
resolve_next_step_progress :
    (i : Input) (f : Facts)
    → valid_contact i.requirements.contact_verification ≡ true
    → i.facts ≡ some f
    → valid_mode f.consent_mode ≡ true
    → can_transition_to i.current_step consent ≡ true
    → (d : Decision) × (resolve_next_step i ≡ ok d)
unfolding resolve_next_step validate
resolve_next_step_progress i f contact facts mode_ok edge =
    passed Decides (validate i.requirements) _ _ (simp (validate, contact)) (
      branched Decides
        (i.requirements.password_change_required
          && can_transition_to i.current_step password_change)
        _ _ (λ change. (_, refl))
        (λ stay.
          branched Decides
            (can_verify i.current_step (verification_next_step i.requirements.contact_verification))
            _ _
            (λ verifies.
              found Decides (verification_next_step i.requirements.contact_verification) _ _
                by_facts (λ s e. (_, refl)))
            (λ no_contact. by_facts)))
  where
    by_facts : Decides (decide_by_facts i.current_step i.facts)
    by_facts = rw facts (decide_by_facts-progress i.current_step f mode_ok edge)

not_at_choose :
    (s current : NextStep)
    → current ≡ choose_authentication_method
    → ((step_equal s consent ≡ true)
        → (step_equal current mfa || step_equal current mfa_enrollment) ≡ true)
    → step_equal s consent ≡ false
not_at_choose s current at h = ground arith

-- A first authentication by a known method, on a transaction that waits for one and has not
-- expired, with the step that the flow decides, always succeeds: the transaction is left at that
-- step, for that identity, with that one method.
complete_primary_authentication-resolve_next_step :
    (t : AuthorizationTransaction) (i : Input) (d : Decision) (id : Uuid) (m : Method) (now : Time)
    → t.status ≡ status_pending
    → t.next_step ≡ choose_authentication_method
    → t.identity_id ≡ none
    → t.authentication_level ≡ none
    → t.authenticated_methods ≡ []
    → 0 < now
    → now < t.expires_at
    → id ≢ 0
    → valid_method m ≡ true
    → i.current_step ≡ choose_authentication_method
    → resolve_next_step i ≡ ok d
    → complete_primary_authentication t id m d.next_step now ≡ (
      record t { next_step = d.next_step; identity_id = some id; authenticated_methods = m ∷ [] },
      none,
    )
unfolding complete_primary_authentication apply_authentication ensure_change_allowed transition_to
    resolve_authentication_completion
complete_primary_authentication-resolve_next_step t i d id m now pending choose nobody no_level
      no_method positive early known method at decided =
    passed Taken (ensure_change_allowed t now) _ _ (ground arith) (
      past Taken (not (is_pending t.status)) _ _ (rw pending refl) (
        past Taken
          (not (step_equal t.next_step choose_authentication_method)
            || is_some t.authentication_level)
          _ _ (rw (choose, no_level) refl)
          (past Taken (not (is_valid_id id)) _ _ (ground arith) (
            past Taken (not (valid_method m)) _ _ (rw method refl) (
              past Taken (is_other t.identity_id id) _ _ (rw nobody refl) (
                past Taken (contains t.authenticated_methods m) _ _ (rw no_method refl) (
                  settled_ok Taken
                    (resolve_authentication_completion (t.authenticated_methods ++ m ∷ [])
                      d.next_step)
                    _ _ none (simp (resolve_authentication_completion, not_consent))
                    (rw (moved, no_method) refl))))))))
  where
    sound : IsSound i.current_step i.facts d
    sound = resolve_next_step-IsSound i d decided

    edge : can_transition_to choose_authentication_method d.next_step ≡ true
    edge = rw (← at) sound.legal

    not_consent : step_equal d.next_step consent ≡ false
    not_consent = not_at_choose d.next_step i.current_step at sound.after_mfa

    moved : transition_to t d.next_step ≡ (record t { next_step = d.next_step }, none)
    moved = simp (transition_to, pending, choose, edge)

    Taken : AuthorizationTransaction × Option transaction.Error → Type 0
    Taken r = r ≡ (
      record t { next_step = d.next_step; identity_id = some id; authenticated_methods = m ∷ [] },
      none,
    )
