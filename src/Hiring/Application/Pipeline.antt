-- ===== src/Hiring/Application/Pipeline.antt =====
-- The hiring pipeline as a graph, against `CanTransitionTo` and `ParseStage` of
-- services/hiring/internal/domain/application/stage.go.
use careeria.Base.{
  ◌≡◌, refl, sym, true, ◌↔◌, arith, ok, Bool-cases, inl, inr, list_comparable, nat_comparable,
  equal_list_iff,
}
use careeria.Base.Text.{Text, codes}
use careeria.Hiring.Application.Stage.{
  PipelineStage, applied, screening, tech_assessment, interview, offer_pending, offer_accepted,
  hired, rejected, withdrawn, other, stage_text, valid, can_transition_to, stage_of, parse_stage,
}

-- A stage that an application still moves on from.
pub data IsOpen : PipelineStage → Type 0 where
  applied_open : IsOpen applied
  screening_open : IsOpen screening
  assessment_open : IsOpen tech_assessment
  interview_open : IsOpen interview
  pending_open : IsOpen offer_pending
  accepted_open : IsOpen offer_accepted

infix 40 ◌⟶◌
pub data ◌⟶◌ : PipelineStage → PipelineStage → Type 0 where
  screen : applied ⟶ screening
  assess : screening ⟶ tech_assessment
  invite : screening ⟶ interview
  pass : tech_assessment ⟶ interview
  propose : interview ⟶ offer_pending
  accept : offer_pending ⟶ offer_accepted
  reopen : offer_pending ⟶ interview
  hire : offer_accepted ⟶ hired
  turn_down : {s : PipelineStage} → IsOpen s → s ⟶ rejected
  step_back : {s : PipelineStage} → IsOpen s → s ⟶ withdrawn

ruleset opens =
    (applied_open, screening_open, assessment_open, interview_open, pending_open, accepted_open)

ruleset edges = (screen, assess, invite, pass, propose, accept, reopen, hire)

sound : (s t : PipelineStage) → can_transition_to s t ≡ true → s ⟶ t
unfolding can_transition_to
sound s t h = grind (arith, edges, opens, turn_down, step_back)

complete : {s t : PipelineStage} → s ⟶ t → can_transition_to s t ≡ true
unfolding can_transition_to
complete screen = refl
complete assess = refl
complete invite = refl
complete pass = refl
complete propose = refl
complete accept = refl
complete reopen = refl
complete hire = refl
complete (turn_down applied_open) = refl
complete (turn_down screening_open) = refl
complete (turn_down assessment_open) = refl
complete (turn_down interview_open) = refl
complete (turn_down pending_open) = refl
complete (turn_down accepted_open) = refl
complete (step_back applied_open) = refl
complete (step_back screening_open) = refl
complete (step_back assessment_open) = refl
complete (step_back interview_open) = refl
complete (step_back pending_open) = refl
complete (step_back accepted_open) = refl

-- `CanTransitionTo` answers yes exactly along the edges of the pipeline: its ladder of tests and
-- the graph agree on every pair of stages, texts that are no stage included.
pub can_transition_to-⟶ : (s t : PipelineStage) → (can_transition_to s t ≡ true) ↔ (s ⟶ t)
can_transition_to-⟶ s t = (sound s t, complete)

pub can_transition_to-valid : (s t : PipelineStage) → can_transition_to s t ≡ true → valid t ≡ true
unfolding can_transition_to
can_transition_to-valid s t h = ground arith

stage_text-stage_of : (value : Text) → stage_text (stage_of value) ≡ value
unfolding stage_text stage_of
stage_text-stage_of value = ground (
  arith,
  (equal_list_iff value (codes "APPLIED")).0,
  (equal_list_iff value (codes "SCREENING")).0,
  (equal_list_iff value (codes "TECH_ASSESSMENT")).0,
  (equal_list_iff value (codes "INTERVIEW")).0,
  (equal_list_iff value (codes "OFFER_PENDING")).0,
  (equal_list_iff value (codes "OFFER_ACCEPTED")).0,
  (equal_list_iff value (codes "HIRED")).0,
  (equal_list_iff value (codes "REJECTED")).0,
  (equal_list_iff value (codes "WITHDRAWN")).0,
)

parse_stage_sound :
    (value : Text) (s : PipelineStage)
    → parse_stage value ≡ ok s
    → (valid s ≡ true) × (stage_text s ≡ value)
unfolding parse_stage
parse_stage_sound value s h = elim (Bool-cases (valid (stage_of value))) [
  | inl good ↦
      let same : stage_of value ≡ s = ground arith in rw (← same) (good, stage_text-stage_of value)
  | inr bad ↦ absurd (ground arith)
]

-- The nine stages of the pipeline with the texts that stand for them.
abbrev pub Names : PipelineStage → Text → Type 0
Names applied value = value ≡ codes "APPLIED"
Names screening value = value ≡ codes "SCREENING"
Names tech_assessment value = value ≡ codes "TECH_ASSESSMENT"
Names interview value = value ≡ codes "INTERVIEW"
Names offer_pending value = value ≡ codes "OFFER_PENDING"
Names offer_accepted value = value ≡ codes "OFFER_ACCEPTED"
Names hired value = value ≡ codes "HIRED"
Names rejected value = value ≡ codes "REJECTED"
Names withdrawn value = value ≡ codes "WITHDRAWN"
Names (other s) value = ⊥

valid-Names :
    (s : PipelineStage) (value : Text) → valid s ≡ true → stage_text s ≡ value → Names s value
unfolding stage_text
valid-Names applied value v e = sym e
valid-Names screening value v e = sym e
valid-Names tech_assessment value v e = sym e
valid-Names interview value v e = sym e
valid-Names offer_pending value v e = sym e
valid-Names offer_accepted value v e = sym e
valid-Names hired value v e = sym e
valid-Names rejected value v e = sym e
valid-Names withdrawn value v e = sym e
valid-Names (other s) value v e = cc v

Names-parsed : (s : PipelineStage) (value : Text) → Names s value → parse_stage value ≡ ok s
unfolding parse_stage
Names-parsed applied value e = rw e refl
Names-parsed screening value e = rw e refl
Names-parsed tech_assessment value e = rw e refl
Names-parsed interview value e = rw e refl
Names-parsed offer_pending value e = rw e refl
Names-parsed offer_accepted value e = rw e refl
Names-parsed hired value e = rw e refl
Names-parsed rejected value e = rw e refl
Names-parsed withdrawn value e = rw e refl
Names-parsed (other s) value e = absurd e

-- `ParseStage` reads exactly the texts of the nine stages of the pipeline, each as its stage, and
-- answers no other text with a stage; `String` prints the stage that was read as the same text.
pub parse_stage_iff :
    (value : Text) (s : PipelineStage)
    → ((parse_stage value ≡ ok s) ↔ Names s value)
      × (parse_stage value ≡ ok s → stage_text s ≡ value)
parse_stage_iff value s = (
  (
    λ h. let (known, same) = parse_stage_sound value s h in valid-Names s value known same,
    Names-parsed s value,
  ),
  λ h. (parse_stage_sound value s h).1,
)
