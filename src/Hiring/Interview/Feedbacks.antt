-- ===== src/Hiring/Interview/Feedbacks.antt =====
-- What holds of the feedback of an interview after any calls of
-- services/hiring/internal/domain/interview/interview.go.
use mathlib.Core.List.{map-append}
use careeria.Base.{
  ◌≤◌, ◌≡◌, ◌≢◌, refl, true, false, none, List, [], ◌∷◌, map, arith, ok, All, All-append, contains,
  Distinct, Distinct-snoc, nat_comparable, Bool-cases, Option-cases, inl, inr, ◌==◌, if◌then◌else◌,
}
use careeria.Base.Text.{Text}
use careeria.Domain.{Time, Uuid}
use careeria.Hiring.Interview.{
  InterviewType, MeetingFormat, Participant, Feedback, Interview, can_evaluate, is_cancelled,
  validate, schedule, set_meeting_room_url, complete, cancel, evaluator_error, has_feedback,
  submit_feedback,
}

-- The first participant with the identifier may evaluate.
abbrev pub Evaluates : List Participant → Uuid → Type 0
Evaluates [] user_id = ⊥
Evaluates (p ∷ ps) user_id =
    if p.user_id == user_id then can_evaluate p.role ≡ true else Evaluates ps user_id

pub record FeedbackOk (participants : List Participant) (f : Feedback) : Type 0 where
  pub known : f.interviewer_user_id ≢ 0
  pub at_least : 1 ≤ f.score
  pub at_most : f.score ≤ 5
  pub evaluator : Evaluates participants f.interviewer_user_id

pub record WellFormed (i : Interview) : Type 0 where
  pub feedbacks_ok : All (FeedbackOk i.participants) i.feedbacks
  pub once_each : Distinct (map (λ f. f.interviewer_user_id) i.feedbacks)

Evaluates-of :
    (ps : List Participant) (user_id : Uuid)
    → evaluator_error ps user_id ≡ none
    → Evaluates ps user_id
unfolding evaluator_error
Evaluates-of [] user_id h = cc
Evaluates-of (p ∷ ps) user_id h = elim (Bool-cases (p.user_id == user_id)) [
  | inl hit ↦ rw hit (ground arith)
  | inr miss ↦ rw miss (Evaluates-of ps user_id (ground arith))
]

contains-feedback :
    (fs : List Feedback) (user_id : Uuid)
    → has_feedback fs user_id ≡ false
    → contains (map (λ f. f.interviewer_user_id) fs) user_id ≡ false
unfolding has_feedback
contains-feedback [] user_id h = refl
contains-feedback (f ∷ fs) user_id h = ground (arith, contains-feedback fs user_id)

submit_feedback-WellFormed :
    (i : Interview) (f : Feedback) (now : Time)
    → WellFormed i
    → WellFormed (submit_feedback i f now).0
unfolding submit_feedback
submit_feedback-WellFormed i f now w = elim (Option-cases (validate f)) [
  | inr (e, bad) ↦ rw (submit_feedback, bad) w
  | inl good ↦ elim (Bool-cases (is_cancelled i.status)) [
    | inl over ↦ rw (submit_feedback, good, over) w
    | inr going ↦ elim (Option-cases (evaluator_error i.participants f.interviewer_user_id)) [
      | inr (e, bad) ↦ rw (submit_feedback, good, going, bad) w
      | inl able ↦ elim (Bool-cases (has_feedback i.feedbacks f.interviewer_user_id)) [
        | inl old ↦ rw (submit_feedback, good, going, able, old) w
        | inr new ↦
            rw (submit_feedback, good, going, able, new)
              (record {
                feedbacks_ok = All-append _ i.feedbacks _ w.feedbacks_ok (
                  record {
                    known = ground arith;
                    at_least = ground arith;
                    at_most = ground arith;
                    evaluator = Evaluates-of i.participants f.interviewer_user_id able;
                  },
                  tt,
                );
                once_each =
                    rw (map-append (λ (g : Feedback). g.interviewer_user_id) i.feedbacks _) (
                      Distinct-snoc _ f.interviewer_user_id w.once_each
                        (contains-feedback i.feedbacks f.interviewer_user_id new));
              })
      ]
    ]
  ]
]

pub data Call : Type 0 where
  sets_meeting_room_url cancels : Text → Call
  completes : Call
  submits_feedback : Feedback → Call

pub perform : Interview → Call → Time → Interview
perform i (sets_meeting_room_url url) now = set_meeting_room_url i url now
perform i (cancels reason) now = (cancel i reason now).0
perform i completes now = (complete i now).0
perform i (submits_feedback f) now = (submit_feedback i f now).0

pub run : Interview → List (Call × Time) → Interview
run i [] = i
run i ((c, now) ∷ cs) = run (perform i c now) cs

status-WellFormed :
    (i j : Interview)
    → j.participants ≡ i.participants
    → j.feedbacks ≡ i.feedbacks
    → WellFormed i
    → WellFormed j
status-WellFormed i j p f w = record {
  feedbacks_ok = rw (p, f) w.feedbacks_ok;
  once_each = rw f w.once_each;
}

perform-WellFormed :
    (i : Interview) (c : Call) (now : Time) → WellFormed i → WellFormed (perform i c now)
unfolding perform set_meeting_room_url cancel complete
perform-WellFormed i (sets_meeting_room_url url) now w = status-WellFormed i _ refl refl w
perform-WellFormed i (cancels reason) now w = status-WellFormed i _ (ground arith) (ground arith) w
perform-WellFormed i completes now w = status-WellFormed i _ (ground arith) (ground arith) w
perform-WellFormed i (submits_feedback f) now w = submit_feedback-WellFormed i f now w

run-WellFormed : (i : Interview) (cs : List (Call × Time)) → WellFormed i → WellFormed (run i cs)
unfolding run
run-WellFormed i [] w = w
run-WellFormed i ((c, now) ∷ cs) w =
    run-WellFormed (perform i c now) cs (perform-WellFormed i c now w)

schedule-WellFormed :
    (id application_id : Uuid) (kind : InterviewType) (format : MeetingFormat)
    (start_time end_time : Time) (participants : List Participant) (url : Text) (now : Time)
    {i : Interview}
    → schedule id application_id kind format start_time end_time participants url now ≡ ok i
    → WellFormed i
unfolding schedule
schedule-WellFormed id application_id kind format start_time end_time participants url now h =
    ground arith

-- After any calls on a scheduled interview, each feedback has an interviewer and a score from 1 to
-- 5, the interviewer is a participant whose role may evaluate, and nobody has given two.
pub schedule-run-WellFormed :
    (id application_id : Uuid) (kind : InterviewType) (format : MeetingFormat)
    (start_time end_time : Time) (participants : List Participant) (url : Text) (now : Time)
    (i : Interview) (cs : List (Call × Time))
    → schedule id application_id kind format start_time end_time participants url now ≡ ok i
    → WellFormed (run i cs)
schedule-run-WellFormed id application_id kind format start_time end_time ps url now i cs made =
    run-WellFormed i cs
      (schedule-WellFormed id application_id kind format start_time end_time ps url now made)
