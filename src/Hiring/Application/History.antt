-- ===== src/Hiring/Application/History.antt =====
-- The history of an application: a path through the pipeline from `applied` to the current stage.
use careeria.Base.{
  ◌%◌, ◌^◌, ◌≡◌, ◌≢◌, refl, sym, subst, ◌∙◌, inl, inr, true, Option, none, some, List, [], ◌∷◌,
  ◌++◌, arith, length, length-append, ok, Bool-cases, ◌==◌,
}
use careeria.Base.Text.{Text, trim_space}
use careeria.Domain.{Time, Uuid}
use careeria.Hiring.Application.Errors.{Error}
use careeria.Hiring.Application.Stage.{PipelineStage, applied, can_transition_to}
use careeria.Hiring.Application.Transition.{StageTransition, new_stage_transition, no_stage}
use careeria.Hiring.Application.Pipeline.{◌⟶◌, can_transition_to-⟶, can_transition_to-valid}
use careeria.Hiring.Application.{JobApplication, next_version, new, add_transition, change_stage}

-- Transitions that follow on from stage `s`, each along an edge and by some actor, and end in `t`.
abbrev pub IsPath : PipelineStage → List StageTransition → PipelineStage → Type 0
IsPath s [] t = s ≡ t
IsPath s (x ∷ xs) t =
    (x.from_stage ≡ s) × (s ⟶ x.to_stage) × (x.changed_by ≢ 0) × IsPath x.to_stage xs t

IsPath-snoc :
    (s t : PipelineStage) (xs : List StageTransition) (x : StageTransition)
    → IsPath s xs t
    → x.from_stage ≡ t
    → t ⟶ x.to_stage
    → x.changed_by ≢ 0
    → IsPath s (xs ++ x ∷ []) x.to_stage
IsPath-snoc s t [] x p from edge actor =
    (from ∙ sym p, subst (λ r. r ⟶ x.to_stage) (sym p) edge, actor, refl)
IsPath-snoc s t (y ∷ ys) x p from edge actor =
    (p.0, p.1, p.2, IsPath-snoc y.to_stage t ys x p.3 from edge actor)

-- The first transition is the initial one, and the others follow on from `applied`.
abbrev pub IsHistory : List StageTransition → PipelineStage → Type 0
IsHistory [] t = ⊥
IsHistory (x ∷ xs) t =
    (x.from_stage ≡ no_stage) × (x.to_stage ≡ applied) × (x.changed_by ≢ 0) × IsPath applied xs t

IsHistory-snoc :
    (t : PipelineStage) (xs : List StageTransition) (x : StageTransition)
    → IsHistory xs t
    → x.from_stage ≡ t
    → t ⟶ x.to_stage
    → x.changed_by ≢ 0
    → IsHistory (xs ++ x ∷ []) x.to_stage
IsHistory-snoc t [] x p from edge actor = absurd p
IsHistory-snoc t (y ∷ ys) x p from edge actor =
    (p.0, p.1, p.2, IsPath-snoc applied t ys x p.3 from edge actor)

pub record WellFormed (a : JobApplication) : Type 0 where
  pub told : IsHistory a.history a.current_stage
  pub versioned : a.version ≡ length a.history % 2 ^ 64

-- A new application is well formed.
pub new-WellFormed :
    (fresh_id id vacancy_id candidate_id actor_id : Uuid) (now : Time) {a : JobApplication}
    → new fresh_id id vacancy_id candidate_id actor_id now ≡ ok a
    → WellFormed a
unfolding new
new-WellFormed fresh_id id vacancy_id candidate_id actor_id now h = ground arith

-- The application after a transition was added.
abbrev moved : JobApplication → Uuid → PipelineStage → Uuid → Text → Time → JobApplication
moved a fresh_id target actor_id reason now = record a {
  history =
      a.history
      ++ record {
        id = fresh_id;
        from_stage = a.current_stage;
        to_stage = target;
        changed_by = actor_id;
        changed_at = now;
        reason = trim_space reason;
      }
        ∷ [];
  current_stage = target;
  version = next_version a.version;
  updated_at = now;
}

-- A change of stage either is refused with an error and changes nothing, or adds the transition.
-- The error that `addTransition` drops cannot occur.
pub change_stage-split {ℓ} :
    (P : JobApplication × Option Error → Type ℓ) (a : JobApplication) (fresh_id : Uuid)
    (target : PipelineStage) (actor_id : Uuid) (reason : Text) (now : Time)
    → ((e : Error) → P (a, some e))
    → (actor_id ≢ 0
        → can_transition_to a.current_stage target ≡ true
        → P (moved a fresh_id target actor_id reason now, none))
    → P (change_stage a fresh_id target actor_id reason now)
unfolding change_stage new_stage_transition
change_stage-split P a fresh_id target actor_id reason now refused done =
    elim (Bool-cases (actor_id == 0)) [
      | inl nobody ↦ rw (change_stage, nobody) (refused _)
      | inr actor ↦ elim (Bool-cases (can_transition_to a.current_stage target)) [
        | inr stuck ↦ rw (change_stage, actor, stuck) (refused _)
        | inl edge ↦
            rw
              (
                change_stage,
                actor,
                edge,
                add_transition,
                can_transition_to-valid a.current_stage target edge,
              )
              (done (ground arith) edge)
      ]
    ]

moved-WellFormed :
    (a : JobApplication) (fresh_id : Uuid) (target : PipelineStage) (actor_id : Uuid)
    (reason : Text) (now : Time)
    → WellFormed a
    → actor_id ≢ 0
    → can_transition_to a.current_stage target ≡ true
    → WellFormed (moved a fresh_id target actor_id reason now)
moved-WellFormed a fresh_id target actor_id reason now w actor edge = record {
  told =
      IsHistory-snoc a.current_stage a.history _ w.told refl
        ((can_transition_to-⟶ a.current_stage target).0 edge) actor;
  versioned = omega (arith, w.versioned, length-append {0} a.history);
}

pub change_stage-WellFormed :
    (a : JobApplication) (fresh_id : Uuid) (target : PipelineStage) (actor_id : Uuid)
    (reason : Text) (now : Time)
    → WellFormed a
    → WellFormed (change_stage a fresh_id target actor_id reason now).0
change_stage-WellFormed a fresh_id target actor_id reason now w =
    change_stage-split (λ r. WellFormed r.0) a fresh_id target actor_id reason now (λ e. w)
      (λ actor edge. moved-WellFormed a fresh_id target actor_id reason now w actor edge)
