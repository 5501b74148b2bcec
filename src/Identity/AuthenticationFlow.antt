-- ===== src/Identity/AuthenticationFlow.antt =====
-- services/identity/internal/domain/authenticationflow: facts.go and policy.go, and the consent mode
-- of services/identity/internal/domain/oauthclient/types.go. A nil pointer is `none`, the empty
-- step of `verificationNextStep` is `none`.
pub mod Decisions
pub mod Progress
mod Tests
use careeria.Base.{
  ◌≡◌, Bool, true, false, not, ◌||◌, ◌&&◌, Option, none, some, List, [], ◌∷◌, if◌then◌else◌,
  is_empty, Result, ok, err, contains, Comparable,
}
use careeria.Base.Text.{Text}
use careeria.Identity.Authentication.{
  Method, password, valid_method, method_equal, method_comparable,
}
use careeria.Identity.AuthorizationTransaction.Step.{
  NextStep, password_change, email_verification, phone_verification, mfa_enrollment, mfa, consent,
  can_transition_to, AuthorizationSource, remembered_grant, trusted_client,
}

pub data Error : Type 0 where
  facts_required no_next_step requirement_invalid consent_mode_invalid : Error
  mfa_method_invalid mfa_method_duplicated grant_inconsistent : Error

pub data ContactVerification : Type 0 where
  verify_none verify_email verify_phone : ContactVerification
  other_contact : Text → ContactVerification

abbrev pub valid_contact : ContactVerification → Bool
valid_contact (other_contact s) = false
valid_contact _ = true

pub data ConsentMode : Type 0 where
  mode_required mode_remember mode_trusted : ConsentMode
  other_mode : Text → ConsentMode

abbrev pub valid_mode : ConsentMode → Bool
valid_mode (other_mode s) = false
valid_mode _ = true

abbrev pub is_remember : ConsentMode → Bool
is_remember mode_remember = true
is_remember _ = false

pub record Requirements : Type 0 where
  pub password_change_required : Bool
  pub contact_verification : ContactVerification

unfoldable pub validate : Requirements → Option Error
validate r = if not (valid_contact r.contact_verification) then some requirement_invalid else none

pub record Facts : Type 0 where
  pub available_mfa_methods : List Method
  pub consent_mode : ConsentMode
  pub remembered_grant_covers : Bool

-- The loop of `NewFacts`, with the set of the methods seen.
unfoldable pub check_methods : List Method → List Method → Option Error
check_methods seen [] = none
check_methods seen (m ∷ ms) =
    let rest = check_methods (m ∷ seen) ms in
    if not (valid_method m) || method_equal m password
    then some mfa_method_invalid
    else if contains seen m
    then some mfa_method_duplicated
    else rest

unfoldable pub new_facts : List Method → ConsentMode → Bool → Result Error Facts
unfolding check_methods
new_facts methods mode covers =
    if not (valid_mode mode) then err consent_mode_invalid else elim (check_methods [] methods) [
      | some e ↦ err e
      | none ↦
          if covers && not (is_remember mode)
          then err grant_inconsistent
          else ok (record {
            available_mfa_methods = methods;
            consent_mode = mode;
            remembered_grant_covers = covers;
          })
    ]

abbrev pub has_usable_mfa : Facts → Bool
has_usable_mfa f = not (is_empty f.available_mfa_methods)

pub record Input : Type 0 where
  pub current_step : NextStep
  pub requirements : Requirements
  pub facts : Option Facts

pub record Decision : Type 0 where
  pub next_step : NextStep
  pub authorization_source : Option AuthorizationSource

abbrev pub decide : NextStep → Result Error Decision
decide step = ok (record { next_step = step; authorization_source = none })

abbrev pub verification_next_step : ContactVerification → Option NextStep
verification_next_step verify_email = some email_verification
verification_next_step verify_phone = some phone_verification
verification_next_step _ = none

-- `verificationStep != "" && input.CurrentStep.CanTransitionTo(verificationStep)`
abbrev pub can_verify : NextStep → Option NextStep → Bool
can_verify current none = false
can_verify current (some step) = can_transition_to current step

-- The last `switch` of `ResolveNextStep`.
unfoldable pub decide_consent : Facts → Result Error Decision
decide_consent f = elim f.consent_mode [
  | mode_required ↦ decide consent
  | mode_remember ↦
      if not f.remembered_grant_covers
      then decide consent
      else ok (record { next_step = consent; authorization_source = some remembered_grant })
  | mode_trusted ↦ ok (record { next_step = consent; authorization_source = some trusted_client })
  | other_mode s ↦ err consent_mode_invalid
]

-- `ResolveNextStep` from the test of the facts on.
unfoldable pub decide_by_facts : NextStep → Option Facts → Result Error Decision
unfolding decide_consent
decide_by_facts current none = err facts_required
decide_by_facts current (some f) =
    let mfa_step = if has_usable_mfa f then mfa else mfa_enrollment in
    if can_transition_to current mfa_step
    then decide mfa_step
    else if not (can_transition_to current consent)
    then err no_next_step
    else decide_consent f

unfoldable pub resolve_next_step : Input → Result Error Decision
unfolding validate decide_by_facts
resolve_next_step i =
    let step = verification_next_step i.requirements.contact_verification in
    elim (validate i.requirements) [
      | some e ↦ err e
      | none ↦
          if i.requirements.password_change_required
            && can_transition_to i.current_step password_change
          then decide password_change
          else if can_verify i.current_step step
          then elim step [ none ↦ decide_by_facts i.current_step i.facts | some s ↦ decide s ]
          else decide_by_facts i.current_step i.facts
    ]
