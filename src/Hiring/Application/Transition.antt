-- ===== src/Hiring/Application/Transition.antt =====
-- services/hiring/internal/domain/application/transition.go. `uuid.New()` is an argument.
use careeria.Base.{Bool, true, false, not, ◌&&◌, is_empty, if◌then◌else◌, Result, ok, err, ◌==◌}
use careeria.Base.Text.{Text, codes, trim_space}
use careeria.Domain.{Time, Uuid}
use careeria.Hiring.Application.Errors.{
  Error, invalid_transition_actor, invalid_transition_stage, empty_reject_reason,
}
use careeria.Hiring.Application.Stage.{
  PipelineStage, other, applied, stage_equal, valid, is_terminal,
}

pub record StageTransition : Type 0 where
  pub id : Uuid
  pub from_stage : PipelineStage
  pub to_stage : PipelineStage
  pub changed_by : Uuid
  pub changed_at : Time
  pub reason : Text

-- The empty string as a stage.
abbrev pub no_stage : PipelineStage
no_stage = other (codes "")

unfoldable pub new_stage_transition :
    Uuid → PipelineStage → PipelineStage → Uuid → Text → Time → Result Error StageTransition
new_stage_transition fresh_id from_stage to_stage changed_by reason now =
    if changed_by == 0
    then err invalid_transition_actor
    else if not (valid to_stage)
    then err invalid_transition_stage
    else ok (record {
      id = fresh_id;
      from_stage = from_stage;
      to_stage = to_stage;
      changed_by = changed_by;
      changed_at = now;
      reason = trim_space reason;
    })

abbrev pub is_initial : StageTransition → Bool
is_initial t = stage_equal t.from_stage no_stage && stage_equal t.to_stage applied

abbrev pub is_terminal_transition : StageTransition → Bool
is_terminal_transition t = is_terminal t.to_stage

pub data RejectCode : Type 0 where
  not_qualified assessment_failed culture_mismatch candidate_withdrew : RejectCode
  vacancy_closed overqualified other_code : RejectCode
  unknown_code : Text → RejectCode

abbrev pub code_text : RejectCode → Text
code_text not_qualified = codes "NOT_QUALIFIED"
code_text assessment_failed = codes "ASSESSMENT_FAILED"
code_text culture_mismatch = codes "CULTURE_MISMATCH"
code_text candidate_withdrew = codes "CANDIDATE_WITHDREW"
code_text vacancy_closed = codes "VACANCY_CLOSED"
code_text overqualified = codes "OVERQUALIFIED"
code_text other_code = codes "OTHER"
code_text (unknown_code s) = s

abbrev pub valid_code : RejectCode → Bool
valid_code (unknown_code s) = false
valid_code _ = true

pub record RejectReason : Type 0 where
  pub code : RejectCode
  pub comment : Text

unfoldable pub new_reject_reason : RejectCode → Text → Result Error RejectReason
new_reject_reason code comment =
    let comment = trim_space comment in
    if not (valid_code code) && is_empty comment
    then err empty_reject_reason
    else if not (valid_code code)
    then ok (record { code = other_code; comment = comment })
    else ok (record { code = code; comment = comment })

unfoldable pub effective_comment : RejectReason → Text
effective_comment r = if not (is_empty r.comment) then r.comment else code_text r.code
