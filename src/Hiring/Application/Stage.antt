-- ===== src/Hiring/Application/Stage.antt =====
-- services/hiring/internal/domain/application/stage.go. A string of type `PipelineStage` is one of
-- the nine constants or any other text, the empty one of an initial transition included.
use careeria.Base.{
  Bool, true, false, not, ◌||◌, equal, nat_comparable, list_comparable, if◌then◌else◌, Result, ok,
  err,
}
use careeria.Base.Text.{Text, codes}
use careeria.Hiring.Application.Errors.{Error, invalid_stage_text}

pub data PipelineStage : Type 0 where
  applied screening tech_assessment interview offer_pending offer_accepted : PipelineStage
  hired rejected withdrawn : PipelineStage
  other : Text → PipelineStage

abbrev pub stage_equal : PipelineStage → PipelineStage → Bool
stage_equal applied applied = true
stage_equal screening screening = true
stage_equal tech_assessment tech_assessment = true
stage_equal interview interview = true
stage_equal offer_pending offer_pending = true
stage_equal offer_accepted offer_accepted = true
stage_equal hired hired = true
stage_equal rejected rejected = true
stage_equal withdrawn withdrawn = true
stage_equal (other a) (other b) = equal a b
stage_equal _ _ = false

-- `String()`
unfoldable pub stage_text : PipelineStage → Text
stage_text applied = codes "APPLIED"
stage_text screening = codes "SCREENING"
stage_text tech_assessment = codes "TECH_ASSESSMENT"
stage_text interview = codes "INTERVIEW"
stage_text offer_pending = codes "OFFER_PENDING"
stage_text offer_accepted = codes "OFFER_ACCEPTED"
stage_text hired = codes "HIRED"
stage_text rejected = codes "REJECTED"
stage_text withdrawn = codes "WITHDRAWN"
stage_text (other s) = s

abbrev pub valid : PipelineStage → Bool
valid (other s) = false
valid _ = true

abbrev pub is_terminal : PipelineStage → Bool
is_terminal hired = true
is_terminal rejected = true
is_terminal withdrawn = true
is_terminal _ = false

-- The last `switch` of `CanTransitionTo`.
forward : PipelineStage → PipelineStage → Bool
forward applied target = stage_equal target screening
forward screening target = stage_equal target tech_assessment || stage_equal target interview
forward tech_assessment target = stage_equal target interview
forward interview target = stage_equal target offer_pending
forward offer_pending target = stage_equal target offer_accepted || stage_equal target interview
forward offer_accepted target = stage_equal target hired
forward _ target = false

unfoldable pub can_transition_to : PipelineStage → PipelineStage → Bool
unfolding forward
can_transition_to s target =
    if not (valid s) || not (valid target)
    then false
    else if stage_equal s target
    then false
    else if is_terminal s
    then false
    else if stage_equal target rejected || stage_equal target withdrawn
    then true
    else forward s target

-- The conversion `PipelineStage(value)`.
unfoldable pub stage_of : Text → PipelineStage
stage_of value =
    if equal value (codes "APPLIED")
    then applied
    else if equal value (codes "SCREENING")
    then screening
    else if equal value (codes "TECH_ASSESSMENT")
    then tech_assessment
    else if equal value (codes "INTERVIEW")
    then interview
    else if equal value (codes "OFFER_PENDING")
    then offer_pending
    else if equal value (codes "OFFER_ACCEPTED")
    then offer_accepted
    else if equal value (codes "HIRED")
    then hired
    else if equal value (codes "REJECTED")
    then rejected
    else if equal value (codes "WITHDRAWN")
    then withdrawn
    else other value

unfoldable pub parse_stage : Text → Result Error PipelineStage
unfolding stage_of
parse_stage value =
    let stage = stage_of value in if not (valid stage) then err invalid_stage_text else ok stage
