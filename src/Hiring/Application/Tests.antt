-- ===== src/Hiring/Application/Tests.antt =====
-- An application from its creation to `hired`.
use careeria.Base.{ℕ, ◌≡◌, ◌↔◌, refl, true, some, List, [], ◌∷◌, ok}
use careeria.Base.Text.{Text, codes, trim_space}
use careeria.Domain.{Time}
use careeria.Hiring.Application.Errors.{invalid_stage_transition}
use careeria.Hiring.Application.Stage.{
  PipelineStage, applied, screening, interview, offer_pending, offer_accepted, hired,
  can_transition_to, parse_stage, stage_text,
}
use careeria.Hiring.Application.Transition.{StageTransition, no_stage, new_stage_transition}
use careeria.Hiring.Application.Pipeline.{◌⟶◌, can_transition_to-⟶, Names, parse_stage_iff}
use careeria.Hiring.Application.History.{WellFormed}
use careeria.Hiring.Application.Calls.{
  Call, changes_stage, marks_interview, marks_offer_pending, Request, handle, perform, run, Visits,
  new-run_application-WellFormed, hired-Visits,
}
use careeria.Hiring.Application.{
  JobApplication, new, change_stage, mark_interview, mark_offer_pending, add_transition,
}

abbrev transition : ℕ → PipelineStage → PipelineStage → Time → Text → StageTransition
transition id from_stage to_stage now reason = record {
  id = id;
  from_stage = from_stage;
  to_stage = to_stage;
  changed_by = 9;
  changed_at = now;
  reason = trim_space reason;
}

abbrev application : JobApplication
application = record {
  id = 1;
  vacancy_id = 2;
  candidate_id = 3;
  current_stage = applied;
  version = 1;
  history = transition 100 no_stage applied 10 (codes "application submitted") ∷ [];
  created_at = 10;
  updated_at = 10;
}

application_made : new 100 1 2 3 9 10 ≡ ok application
unfolding new new_stage_transition
application_made = refl

abbrev request : ℕ → Time → Call → Request
request fresh_id now call = record { fresh_id = fresh_id; actor_id = 9; now = now; call = call }

abbrev requests : List Request
requests =
    request 101 20 (changes_stage screening (codes "cv"))
    ∷ request 102 30 (marks_interview (codes "call"))
    ∷ request 103 40 marks_offer_pending
    ∷ request 104 50 (changes_stage offer_accepted (codes "signed"))
    ∷ request 105 60 (changes_stage hired (codes "start"))
    ∷ []

new-run_application-WellFormed_example : WellFormed (run application requests)
new-run_application-WellFormed_example =
    new-run_application-WellFormed 100 1 2 3 9 10 application requests application_made

run_hired : (run application requests).current_stage ≡ hired
unfolding run handle perform change_stage mark_interview mark_offer_pending add_transition
    can_transition_to new_stage_transition
run_hired = refl

hired-Visits_example :
    Visits interview (run application requests).history
    × Visits offer_pending (run application requests).history
    × Visits offer_accepted (run application requests).history
hired-Visits_example = hired-Visits 100 1 2 3 9 10 application requests application_made run_hired

abbrev hired_application : JobApplication
hired_application = record application { current_stage = hired }

abbrev early : Request
early = request 101 20 marks_offer_pending

early_refused : (handle application early).1 ≡ some invalid_stage_transition
unfolding handle perform change_stage mark_offer_pending can_transition_to
early_refused = refl

can_transition_to-⟶_example :
    (can_transition_to screening interview ≡ true) ↔ (screening ⟶ interview)
can_transition_to-⟶_example = can_transition_to-⟶ screening interview

parse_stage_iff_example :
    ((parse_stage (codes "HIRED") ≡ ok hired) ↔ Names hired (codes "HIRED"))
    × (parse_stage (codes "HIRED") ≡ ok hired → stage_text hired ≡ codes "HIRED")
parse_stage_iff_example = parse_stage_iff (codes "HIRED") hired
