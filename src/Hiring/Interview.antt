-- ===== src/Hiring/Interview.antt =====
-- services/hiring/internal/domain/interview: interview.go, and the enumerations, participants and
-- feedback of types.go. A method returns the interview that it leaves and Go's `error`. A score that
-- is not positive is 0.
pub mod Feedbacks
mod Tests
use careeria.Base.{
  ℕ, ◌+◌, ◌%◌, ◌^◌, ◌≡◌, Bool, true, false, not, ◌||◌, Option, none, some, List, [], ◌∷◌, ◌++◌, ltb,
  ◌==◌, is_empty, if◌then◌else◌, Result, ok, err,
}
use careeria.Base.Text.{Text, trim_space}
use careeria.Domain.{Time, Uuid, before, after}

pub data Error : Type 0 where
  empty_id empty_application_id start_in_past invalid_interval empty_participants : Error
  invalid_participant invalid_status interview_cancelled not_participant : Error
  feedback_already_submitted empty_interviewer_id invalid_score invalid_format : Error
  invalid_participant_role participant_cannot_evaluate invalid_interview_type : Error

pub data InterviewStatus : Type 0 where
  scheduled completed cancelled : InterviewStatus
  other_status : Text → InterviewStatus

abbrev pub is_scheduled : InterviewStatus → Bool
is_scheduled scheduled = true
is_scheduled _ = false

abbrev pub is_completed : InterviewStatus → Bool
is_completed completed = true
is_completed _ = false

abbrev pub is_cancelled : InterviewStatus → Bool
is_cancelled cancelled = true
is_cancelled _ = false

pub data InterviewType : Type 0 where
  screening technical system_design behavioral bar_raiser executive : InterviewType
  other_type : Text → InterviewType

abbrev pub valid_type : InterviewType → Bool
valid_type (other_type s) = false
valid_type _ = true

pub data MeetingFormat : Type 0 where
  online_livekit onsite external_link : MeetingFormat
  other_format : Text → MeetingFormat

abbrev pub valid_format : MeetingFormat → Bool
valid_format (other_format s) = false
valid_format _ = true

pub data ParticipantRole : Type 0 where
  lead_interviewer interviewer hiring_manager recruiter bar_raiser_role : ParticipantRole
  observer candidate : ParticipantRole
  other_role : Text → ParticipantRole

abbrev pub valid_role : ParticipantRole → Bool
valid_role (other_role s) = false
valid_role _ = true

abbrev pub can_evaluate : ParticipantRole → Bool
can_evaluate lead_interviewer = true
can_evaluate interviewer = true
can_evaluate hiring_manager = true
can_evaluate recruiter = true
can_evaluate bar_raiser_role = true
can_evaluate _ = false

pub record Participant : Type 0 where
  pub user_id : Uuid
  pub role : ParticipantRole

pub record Feedback : Type 0 where
  pub interviewer_user_id : Uuid
  pub score : ℕ
  pub notes : Text
  pub submitted_at : Time

unfoldable pub new_participant : Uuid → ParticipantRole → Result Error Participant
new_participant user_id role =
    if user_id == 0
    then err invalid_participant
    else if not (valid_role role)
    then err invalid_participant_role
    else ok (record { user_id = user_id; role = role })

unfoldable pub new_feedback : Uuid → ℕ → Text → Time → Result Error Feedback
new_feedback interviewer_user_id score notes now =
    if interviewer_user_id == 0
    then err empty_interviewer_id
    else if ltb score 1 || ltb 5 score
    then err invalid_score
    else ok (record {
      interviewer_user_id = interviewer_user_id;
      score = score;
      notes = trim_space notes;
      submitted_at = now;
    })

unfoldable pub validate : Feedback → Option Error
validate f =
    if f.interviewer_user_id == 0
    then some empty_interviewer_id
    else if ltb f.score 1 || ltb 5 f.score
    then some invalid_score
    else none

-- `version` is an int64, as its 64-bit pattern.
pub record Interview : Type 0 where
  pub id : Uuid
  pub application_id : Uuid
  pub interview_type : InterviewType
  pub format : MeetingFormat
  pub status : InterviewStatus
  pub scheduled_start_time : Time
  pub scheduled_end_time : Time
  pub meeting_room_url : Text
  pub participants : List Participant
  pub feedbacks : List Feedback
  pub version : ℕ
  pub created_at : Time
  pub updated_at : Time

-- The loop of `Schedule` over the participants.
check_participants : List Participant → Option Error
check_participants [] = none
check_participants (p ∷ ps) =
    if p.user_id == 0
    then some invalid_participant
    else if not (valid_role p.role)
    then some invalid_participant_role
    else check_participants ps

unfoldable pub schedule :
    Uuid
    → Uuid
    → InterviewType
    → MeetingFormat
    → Time
    → Time
    → List Participant
    → Text
    → Time
    → Result Error Interview
unfolding check_participants
schedule id application_id interview_type format start_time end_time participants url now =
    if id == 0
    then err empty_id
    else if application_id == 0
    then err empty_application_id
    else if not (valid_type interview_type)
    then err invalid_interview_type
    else if not (valid_format format)
    then err invalid_format
    else if before start_time now
    then err start_in_past
    else if not (after end_time start_time)
    then err invalid_interval
    else if is_empty participants
    then err empty_participants
    else elim (check_participants participants) [
      | some e ↦ err e
      | none ↦ ok (record {
        id = id;
        application_id = application_id;
        interview_type = interview_type;
        format = format;
        status = scheduled;
        scheduled_start_time = start_time;
        scheduled_end_time = end_time;
        meeting_room_url = trim_space url;
        participants = participants;
        feedbacks = [];
        version = 1;
        created_at = now;
        updated_at = now;
      })
    ]

-- `version++` on an int64.
abbrev pub next_version : ℕ → ℕ
next_version v = (v + 1) % 2 ^ 64

unfoldable pub set_meeting_room_url : Interview → Text → Time → Interview
set_meeting_room_url i url now = record i {
  meeting_room_url = trim_space url;
  version = next_version i.version;
  updated_at = now;
}

unfoldable pub complete : Interview → Time → Interview × Option Error
complete i now =
    if not (is_scheduled i.status)
    then (i, some invalid_status)
    else (record i { status = completed; version = next_version i.version; updated_at = now }, none)

unfoldable pub cancel : Interview → Text → Time → Interview × Option Error
cancel i reason now =
    if not (is_scheduled i.status)
    then (i, some invalid_status)
    else (record i { status = cancelled; version = next_version i.version; updated_at = now }, none)

-- The loop of `SubmitFeedback` over the participants: the first one with the user's identifier
-- decides.
evaluator_error : List Participant → Uuid → Option Error
evaluator_error [] user_id = some not_participant
evaluator_error (p ∷ ps) user_id =
    let rest = evaluator_error ps user_id in
    if p.user_id == user_id
    then (if not (can_evaluate p.role) then some participant_cannot_evaluate else none)
    else rest

-- The loop of `SubmitFeedback` over the feedback given before.
has_feedback : List Feedback → Uuid → Bool
has_feedback [] user_id = false
has_feedback (f ∷ fs) user_id = f.interviewer_user_id == user_id || has_feedback fs user_id

unfoldable pub submit_feedback : Interview → Feedback → Time → Interview × Option Error
unfolding validate evaluator_error has_feedback
submit_feedback i feedback now = elim (validate feedback) [
  | some e ↦ (i, some e)
  | none ↦
      if is_cancelled i.status
      then (i, some interview_cancelled)
      else elim (evaluator_error i.participants feedback.interviewer_user_id) [
        | some e ↦ (i, some e)
        | none ↦
            if has_feedback i.feedbacks feedback.interviewer_user_id
            then (i, some feedback_already_submitted)
            else (
              record i {
                feedbacks = i.feedbacks ++ record feedback { submitted_at = now } ∷ [];
                version = next_version i.version;
                updated_at = now;
              },
              none,
            )
      ]
]
