-- ===== src/Hiring/Policy.antt =====
-- services/hiring/internal/domain/policy/offer_eligibility.go. A nil pointer is `none`.
mod Tests
use careeria.Base.{
  ◌≡◌, ◌≢◌, ◌↔◌, ◌⊎◌, refl, Bool, true, false, not, ◌&&◌, Option, none, some, List, [], ◌∷◌,
  is_empty, if◌then◌else◌, arith, Bool-cases, inl, inr,
}
use careeria.Domain.{Time, Uuid}
use careeria.Hiring.Application.{JobApplication, change_stage, mark_offer_pending}
use careeria.Hiring.Application.Stage.{
  PipelineStage, interview, offer_pending, stage_equal, can_transition_to,
}
use careeria.Hiring.Application.History.{change_stage-split}
use careeria.Hiring.Interview.{Interview, InterviewStatus, completed, is_completed}

pub data Error : Type 0 where
  nil_application invalid_stage_for_offer missing_completed_interview : Error

-- `it != nil && it.Status == StatusCompleted && len(it.Feedbacks) > 0`
abbrev pub is_evaluated : Option Interview → Bool
is_evaluated none = false
is_evaluated (some i) = is_completed i.status && not (is_empty i.feedbacks)

-- The loop over the interviews.
has_evaluated : List (Option Interview) → Bool
has_evaluated [] = false
has_evaluated (i ∷ is) = let rest = has_evaluated is in if is_evaluated i then true else rest

unfoldable pub can_initiate_offer : Option JobApplication → List (Option Interview) → Option Error
unfolding has_evaluated
can_initiate_offer none interviews = some nil_application
can_initiate_offer (some app) interviews =
    if not (stage_equal app.current_stage interview)
    then some invalid_stage_for_offer
    else if not (has_evaluated interviews)
    then some missing_completed_interview
    else none

-- One of the interviews is there, is completed and has feedback.
abbrev pub SomeEvaluated : List (Option Interview) → Type 0
SomeEvaluated [] = ⊥
SomeEvaluated (i ∷ is) = (is_evaluated i ≡ true) ⊎ SomeEvaluated is

has_evaluated_sound : (is : List (Option Interview)) → has_evaluated is ≡ true → SomeEvaluated is
unfolding has_evaluated
has_evaluated_sound [] h = cc
has_evaluated_sound (i ∷ is) h = elim (Bool-cases (is_evaluated i)) [
  | inl here ↦ inl here
  | inr not_here ↦ inr (has_evaluated_sound is (ground arith))
]

has_evaluated_complete : (is : List (Option Interview)) → SomeEvaluated is → has_evaluated is ≡ true
unfolding has_evaluated
has_evaluated_complete [] h = absurd h
has_evaluated_complete (i ∷ is) (inl here) = rw here
has_evaluated_complete (i ∷ is) (inr there) = ground (arith, has_evaluated_complete is there)

-- The policy lets an offer be initiated exactly when the application is in stage `interview` and
-- some interview is completed with feedback.
can_initiate_offer_iff :
    (app : JobApplication) (interviews : List (Option Interview))
    → (can_initiate_offer (some app) interviews ≡ none)
      ↔ ((app.current_stage ≡ interview) × SomeEvaluated interviews)
unfolding can_initiate_offer
can_initiate_offer_iff app interviews = (
  λ h. (ground arith, has_evaluated_sound interviews (ground arith)),
  λ h. ground (arith, has_evaluated_complete interviews h.1),
)

pending_next : (s : PipelineStage) → s ≡ interview → can_transition_to s offer_pending ≡ true
unfolding can_transition_to
pending_next s h = rw h

-- When the policy allows the offer, `MarkOfferPending` by any actor with an identifier succeeds and
-- moves the application to `offer_pending`.
can_initiate_offer-mark_offer_pending :
    (app : JobApplication) (interviews : List (Option Interview)) (fresh_id actor_id : Uuid)
    (now : Time)
    → can_initiate_offer (some app) interviews ≡ none
    → actor_id ≢ 0
    → let (app', e) = mark_offer_pending app fresh_id actor_id now in
      (e ≡ none) × (app'.current_stage ≡ offer_pending)
unfolding mark_offer_pending change_stage
can_initiate_offer-mark_offer_pending app interviews fresh_id actor_id now allowed actor =
    let here = ((can_initiate_offer_iff app interviews).0 allowed).0 in
    ground (arith, pending_next app.current_stage here)
