-- ===== src/Hiring/Interview/Tests.antt =====
-- An interview with two participants, completed, with feedback given twice.
use careeria.Base.{◌≡◌, refl, List, [], ◌∷◌, ok}
use careeria.Base.Text.{codes, trim_space}
use careeria.Domain.{Time}
use careeria.Hiring.Interview.{
  Participant, Feedback, Interview, technical, online_livekit, interviewer, observer, scheduled,
  schedule, check_participants,
}
use careeria.Hiring.Interview.Feedbacks.{
  Call, completes, submits_feedback, run, WellFormed, schedule-run-WellFormed,
}

abbrev participants : List Participant
participants =
    record { user_id = 7; role = interviewer } ∷ record { user_id = 8; role = observer } ∷ []

abbrev interview : Interview
interview = record {
  id = 1;
  application_id = 2;
  interview_type = technical;
  format = online_livekit;
  status = scheduled;
  scheduled_start_time = 100;
  scheduled_end_time = 200;
  meeting_room_url = trim_space (codes "room");
  participants = participants;
  feedbacks = [];
  version = 1;
  created_at = 10;
  updated_at = 10;
}

abbrev feedback : Feedback
feedback = record { interviewer_user_id = 7; score = 4; notes = codes "good"; submitted_at = 0 }

abbrev calls : List (Call × Time)
calls =
    (completes, 210)
    ∷ (submits_feedback feedback, 220)
    ∷ (submits_feedback feedback, 230)
    ∷ (submits_feedback (record feedback { interviewer_user_id = 8 }), 240)
    ∷ []

interview_scheduled :
    schedule 1 2 technical online_livekit 100 200 participants (codes "room") 10 ≡ ok interview
unfolding schedule check_participants
interview_scheduled = refl

schedule-run-WellFormed_example : WellFormed (run interview calls)
schedule-run-WellFormed_example =
    schedule-run-WellFormed 1 2 technical online_livekit 100 200 participants (codes "room") 10
      interview calls interview_scheduled
