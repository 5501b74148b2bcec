-- ===== src/Hiring/Application/Calls.antt =====
-- Sequences of calls of the methods of an application.
use careeria.Base.{
  ◌≡◌, ◌≢◌, refl, subst, ◌⊎◌, inl, inr, true, false, Option, some, List, [], ◌∷◌, arith, ok,
  Bool-cases,
}
use careeria.Base.Text.{Text}
use careeria.Base.Int.{ℤ}
use careeria.Domain.{Time, Uuid}
use careeria.Hiring.Application.Errors.{Error}
use careeria.Hiring.Application.Stage.{
  PipelineStage, applied, interview, offer_pending, offer_accepted, hired, tech_assessment,
  rejected, withdrawn, stage_equal, is_terminal, can_transition_to,
}
use careeria.Hiring.Application.Transition.{StageTransition, RejectReason}
use careeria.Hiring.Application.Pipeline.{◌⟶◌, propose, accept, hire}
use careeria.Hiring.Application.History.{
  IsPath, IsHistory, WellFormed, new-WellFormed, change_stage-WellFormed, change_stage-split,
}
use careeria.Hiring.Application.{
  JobApplication, new, change_stage, mark_interview, mark_offer_pending, advance_from_assessment,
  reject, withdraw,
}

-- The methods that change an application.
pub data Call : Type 0 where
  changes_stage : PipelineStage → Text → Call
  marks_interview : Text → Call
  marks_offer_pending : Call
  advances_from_assessment : ℤ → Call
  rejects : RejectReason → Call
  withdraws : Text → Call

-- A call by an actor at a time, with the identifier for a new transition.
pub record Request : Type 0 where
  pub fresh_id : Uuid
  pub actor_id : Uuid
  pub now : Time
  pub call : Call

unfoldable pub perform : JobApplication → Uuid → Uuid → Time → Call → JobApplication × Option Error
perform a fresh_id actor_id now (changes_stage target reason) =
    change_stage a fresh_id target actor_id reason now
perform a fresh_id actor_id now (marks_interview comment) =
    mark_interview a fresh_id actor_id comment now
perform a fresh_id actor_id now marks_offer_pending = mark_offer_pending a fresh_id actor_id now
perform a fresh_id actor_id now (advances_from_assessment score) =
    advance_from_assessment a fresh_id score actor_id now
perform a fresh_id actor_id now (rejects reason) = reject a fresh_id reason actor_id now
perform a fresh_id actor_id now (withdraws reason) = withdraw a fresh_id actor_id reason now

unfoldable pub handle : JobApplication → Request → JobApplication × Option Error
unfolding perform
handle a q = perform a q.fresh_id q.actor_id q.now q.call

unfoldable pub run : JobApplication → List Request → JobApplication
unfolding handle
run a [] = a
run a (q ∷ qs) = run (handle a q).0 qs

-- Each method refuses at once or is a change of stage.
perform-split {ℓ} :
    (P : JobApplication × Option Error → Type ℓ) (a : JobApplication) (fresh_id actor_id : Uuid)
    (now : Time) (c : Call)
    → ((e : Error) → P (a, some e))
    → ((target : PipelineStage) (reason : Text)
        → P (change_stage a fresh_id target actor_id reason now))
    → P (perform a fresh_id actor_id now c)
unfolding perform mark_interview mark_offer_pending advance_from_assessment reject withdraw
perform-split P a fresh_id actor_id now (changes_stage target reason) refused change =
    change target reason
perform-split P a fresh_id actor_id now (marks_interview comment) refused change =
    change interview comment
perform-split P a fresh_id actor_id now marks_offer_pending refused change = change offer_pending _
perform-split P a fresh_id actor_id now (advances_from_assessment score) refused change =
    elim (Bool-cases (stage_equal a.current_stage tech_assessment)) [
      | inl here ↦ rw (advance_from_assessment, here) (change interview _)
      | inr elsewhere ↦ rw (advance_from_assessment, elsewhere) (refused _)
    ]
perform-split P a fresh_id actor_id now (rejects reason) refused change =
    elim (Bool-cases (is_terminal a.current_stage)) [
      | inl over ↦ rw (reject, over) (refused _)
      | inr going ↦ rw (reject, going) (change rejected _)
    ]
perform-split P a fresh_id actor_id now (withdraws reason) refused change =
    elim (Bool-cases (is_terminal a.current_stage)) [
      | inl over ↦ rw (withdraw, over) (refused _)
      | inr going ↦ rw (withdraw, going) (change withdrawn _)
    ]

handle-WellFormed : (a : JobApplication) (q : Request) → WellFormed a → WellFormed (handle a q).0
unfolding handle
handle-WellFormed a q w =
    perform-split (λ r. WellFormed r.0) a q.fresh_id q.actor_id q.now q.call (λ e. w)
      (λ target reason. change_stage-WellFormed a q.fresh_id target q.actor_id reason q.now w)

run-WellFormed : (a : JobApplication) (qs : List Request) → WellFormed a → WellFormed (run a qs)
unfolding run
run-WellFormed a [] w = w
run-WellFormed a (q ∷ qs) w = run-WellFormed (handle a q).0 qs (handle-WellFormed a q w)

-- Every application reached from a new one by any requests is well formed: its history starts with
-- the initial transition, each further one starts where the last ended, follows an edge of the
-- pipeline and names an actor, the last ends in the current stage, and the version counts them.
pub new-run_application-WellFormed :
    (fresh_id id vacancy_id candidate_id actor_id : Uuid) (now : Time) (a : JobApplication)
    (qs : List Request)
    → new fresh_id id vacancy_id candidate_id actor_id now ≡ ok a
    → WellFormed (run a qs)
new-run_application-WellFormed fresh_id id vacancy_id candidate_id actor_id now a qs made =
    run-WellFormed a qs (new-WellFormed fresh_id id vacancy_id candidate_id actor_id now made)

-- A request that reports an error changes nothing.
handle_error_unchanged :
    (a : JobApplication) (q : Request) {e : Error} → (handle a q).1 ≡ some e → (handle a q).0 ≡ a
unfolding handle
handle_error_unchanged a q {e} =
    perform-split (λ r. r.1 ≡ some e → r.0 ≡ a) a q.fresh_id q.actor_id q.now q.call (λ e' h. refl)
      (λ target reason.
        change_stage-split (λ r. r.1 ≡ some e → r.0 ≡ a) a q.fresh_id target q.actor_id reason q.now
          (λ e' h. refl) (λ actor edge h. cc))

terminal_stuck : (s t : PipelineStage) → is_terminal s ≡ true → can_transition_to s t ≡ false
unfolding can_transition_to
terminal_stuck s t h = ground arith

terminal_handle :
    (a : JobApplication) (q : Request)
    → is_terminal a.current_stage ≡ true
    → (e : Error) × (handle a q ≡ (a, some e))
unfolding handle
terminal_handle a q h =
    perform-split (λ r. (e : Error) × (r ≡ (a, some e))) a q.fresh_id q.actor_id q.now q.call
      (λ e. (e, refl))
      (λ target reason.
        change_stage-split (λ r. (e : Error) × (r ≡ (a, some e))) a q.fresh_id target q.actor_id
          reason q.now (λ e. (e, refl))
          (λ actor edge. cc (terminal_stuck a.current_stage target h)))

-- An application in a terminal stage stays as it is, whatever requests follow.
terminal_absorbs :
    (a : JobApplication) (qs : List Request) → is_terminal a.current_stage ≡ true → run a qs ≡ a
unfolding run
terminal_absorbs a [] h = refl
terminal_absorbs a (q ∷ qs) h =
    let (e, same) = terminal_handle a q h in rw (run, same) (terminal_absorbs a qs h)

-- Some transition of the list ends in the stage.
abbrev pub Visits : PipelineStage → List StageTransition → Type 0
Visits s [] = ⊥
Visits s (x ∷ xs) = (x.to_stage ≡ s) ⊎ Visits s xs

hired_back : {s : PipelineStage} → s ⟶ hired → s ≡ offer_accepted
hired_back hire = refl

accepted_back : {s : PipelineStage} → s ⟶ offer_accepted → s ≡ offer_pending
accepted_back accept = refl

pending_back : {s : PipelineStage} → s ⟶ offer_pending → s ≡ interview
pending_back propose = refl

IsPath-end :
    (s t : PipelineStage) (xs : List StageTransition) → IsPath s xs t → (s ≡ t) ⊎ Visits t xs
IsPath-end s t [] p = inl p
IsPath-end s t (x ∷ xs) p = inr (IsPath-end x.to_stage t xs p.3)

-- A path visits a stage only after the one stage that leads there.
Visits-before :
    (u v : PipelineStage)
    → ((s : PipelineStage) → s ⟶ v → s ≡ u)
    → (s t : PipelineStage) (xs : List StageTransition) → IsPath s xs t
    → Visits v xs
    → (s ≡ u) ⊎ Visits u xs
Visits-before u v back s t [] p h = absurd h
Visits-before u v back s t (x ∷ xs) p (inl here) = inl (back s (subst (λ r. s ⟶ r) here p.1))
Visits-before u v back s t (x ∷ xs) p (inr deeper) =
    inr (Visits-before u v back x.to_stage t xs p.3 deeper)

-- A well-formed history that ends in `hired`.
WellFormed-Visits :
    (a : JobApplication)
    → WellFormed a
    → a.current_stage ≡ hired
    → Visits interview a.history × Visits offer_pending a.history × Visits offer_accepted a.history
WellFormed-Visits a w h = go a.history (subst (IsHistory a.history) h w.told)
  where
    after_first :
        (u : PipelineStage) (x : StageTransition) (xs : List StageTransition)
        → applied ≢ u
        → (applied ≡ u) ⊎ Visits u xs
        → Visits u xs
    after_first u x xs differs (inl e) = absurd (differs e)
    after_first u x xs differs (inr v) = v

    go :
        (xs : List StageTransition)
        → IsHistory xs hired
        → Visits interview xs × Visits offer_pending xs × Visits offer_accepted xs
    go [] p = absurd p
    go (x ∷ xs) p =
        let end = after_first hired x xs (λ e. cc e) (IsPath-end applied hired xs p.3) in
        let accepted =
          after_first offer_accepted x xs (λ e. cc e)
            (Visits-before offer_accepted hired (λ s. hired_back) applied hired xs p.3 end) in
        let pending =
          after_first offer_pending x xs (λ e. cc e)
            (Visits-before offer_pending offer_accepted (λ s. accepted_back) applied hired xs p.3
              accepted) in
        let met =
          after_first interview x xs (λ e. cc e)
            (Visits-before interview offer_pending (λ s. pending_back) applied hired xs p.3
              pending) in
        (inr met, inr pending, inr accepted)

-- Nobody is hired around the pipeline: when an application that was made by `New` is in stage
-- `hired` after any requests, its history visits the stages `interview`, `offer_pending` and
-- `offer_accepted`.
pub hired-Visits :
    (fresh_id id vacancy_id candidate_id actor_id : Uuid) (now : Time) (a : JobApplication)
    (qs : List Request)
    → new fresh_id id vacancy_id candidate_id actor_id now ≡ ok a
    → (run a qs).current_stage ≡ hired
    → let told = (run a qs).history in
      Visits interview told × Visits offer_pending told × Visits offer_accepted told
hired-Visits fresh_id id vacancy_id candidate_id actor_id now a qs made =
    WellFormed-Visits (run a qs)
      (new-run_application-WellFormed fresh_id id vacancy_id candidate_id actor_id now a qs made)
