-- ===== src/Hiring/Application.antt =====
-- services/hiring/internal/domain/application/application.go. A method returns the application that
-- it leaves and Go's `error`; `uuid.New()` of the transition that it records is an argument.
pub mod Errors
pub mod Stage
pub mod Transition
pub mod Pipeline
pub mod History
pub mod Calls
mod Tests
use careeria.Base.{
  ℕ, ◌+◌, ◌%◌, ◌^◌, ◌≡◌, Bool, true, false, not, Option, none, some, List, [], ◌∷◌, ◌++◌, is_empty,
  if◌then◌else◌, Result, ok, err, ◌==◌,
}
use careeria.Base.Text.{Text, codes}
use careeria.Base.Int.{ℤ, decimal}
use careeria.Domain.{Time, Uuid}
use Errors.{
  Error, empty_id, empty_vacancy_id, empty_candidate_id, empty_actor_id, invalid_stage_transition,
  terminal_stage,
}
use Stage.{
  PipelineStage, applied, tech_assessment, interview, offer_pending, rejected, withdrawn,
  stage_equal, is_terminal, can_transition_to,
}
use Transition.{StageTransition, new_stage_transition, no_stage, RejectReason, effective_comment}

-- `version` is an int64, as its 64-bit pattern.
pub record JobApplication : Type 0 where
  pub id : Uuid
  pub vacancy_id : Uuid
  pub candidate_id : Uuid
  pub current_stage : PipelineStage
  pub version : ℕ
  pub history : List StageTransition
  pub created_at : Time
  pub updated_at : Time

-- `version++` on an int64.
abbrev pub next_version : ℕ → ℕ
next_version v = (v + 1) % 2 ^ 64

unfoldable pub new : Uuid → Uuid → Uuid → Uuid → Uuid → Time → Result Error JobApplication
unfolding new_stage_transition
new fresh_id id vacancy_id candidate_id actor_id now =
    let initial =
      new_stage_transition fresh_id no_stage applied actor_id (codes "application submitted") now in
    if id == 0
    then err empty_id
    else if vacancy_id == 0
    then err empty_vacancy_id
    else if candidate_id == 0
    then err empty_candidate_id
    else if actor_id == 0
    then err empty_actor_id
    else elim initial [
      | err e ↦ err e
      | ok transition ↦ ok (record {
        id = id;
        vacancy_id = vacancy_id;
        candidate_id = candidate_id;
        current_stage = applied;
        version = 1;
        history = transition ∷ [];
        created_at = now;
        updated_at = now;
      })
    ]

-- An error of `NewStageTransition` is dropped, as in the source.
add_transition : JobApplication → Uuid → PipelineStage → Uuid → Text → Time → JobApplication
unfolding new_stage_transition
add_transition a fresh_id to by reason now =
    elim (new_stage_transition fresh_id a.current_stage to by reason now) [
      | err e ↦ a
      | ok transition ↦ record a {
        history = a.history ++ transition ∷ [];
        current_stage = to;
        version = next_version a.version;
        updated_at = now;
      }
    ]

unfoldable pub change_stage :
    JobApplication → Uuid → PipelineStage → Uuid → Text → Time → JobApplication × Option Error
unfolding add_transition
change_stage a fresh_id target actor_id reason now =
    if actor_id == 0
    then (a, some empty_actor_id)
    else if not (can_transition_to a.current_stage target)
    then (a, some invalid_stage_transition)
    else (add_transition a fresh_id target actor_id reason now, none)

unfoldable pub mark_interview :
    JobApplication → Uuid → Uuid → Text → Time → JobApplication × Option Error
unfolding change_stage
mark_interview a fresh_id actor_id comment now =
    change_stage a fresh_id interview actor_id comment now

unfoldable pub mark_offer_pending :
    JobApplication → Uuid → Uuid → Time → JobApplication × Option Error
unfolding change_stage
mark_offer_pending a fresh_id actor_id now =
    change_stage a fresh_id offer_pending actor_id (codes "offer initiated") now

unfoldable pub advance_from_assessment :
    JobApplication → Uuid → ℤ → Uuid → Time → JobApplication × Option Error
unfolding change_stage
advance_from_assessment a fresh_id score actor_id now =
    if not (stage_equal a.current_stage tech_assessment)
    then (a, some invalid_stage_transition)
    else change_stage a fresh_id interview actor_id
        (codes "assessment passed with score " ++ decimal score) now

unfoldable pub reject :
    JobApplication → Uuid → RejectReason → Uuid → Time → JobApplication × Option Error
unfolding change_stage
reject a fresh_id reason actor_id now =
    if is_terminal a.current_stage
    then (a, some terminal_stage)
    else change_stage a fresh_id rejected actor_id (effective_comment reason) now

unfoldable pub withdraw : JobApplication → Uuid → Uuid → Text → Time → JobApplication × Option Error
unfolding change_stage
withdraw a fresh_id actor_id reason now =
    let reason = if is_empty reason then codes "candidate withdrawn" else reason in
    if is_terminal a.current_stage
    then (a, some terminal_stage)
    else change_stage a fresh_id withdrawn actor_id reason now
