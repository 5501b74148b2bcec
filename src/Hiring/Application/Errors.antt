-- ===== src/Hiring/Application/Errors.antt =====
-- The errors of services/hiring/internal/domain/application: errors.go, transition.go and
-- `ParseStage`. A wrapped error is the error that it wraps.

pub data Error : Type 0 where
  empty_id empty_vacancy_id empty_candidate_id empty_actor_id : Error
  invalid_stage_transition terminal_stage : Error
  invalid_transition_actor invalid_transition_stage empty_reject_reason : Error
  invalid_stage_text : Error
