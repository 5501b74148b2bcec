-- ===== src/Hiring/Policy/Tests.antt =====
-- An interviewed candidate.
use careeria.Base.{◌≡◌, refl, Option, none, some, List, [], ◌∷◌}
use careeria.Base.Text.{codes}
use careeria.Hiring.Application.{JobApplication}
use careeria.Hiring.Application.Stage.{interview}
use careeria.Hiring.Interview.{Interview, technical, onsite, completed}
use careeria.Hiring.Policy.{can_initiate_offer, has_evaluated}

abbrev application : JobApplication
application = record {
  id = 1;
  vacancy_id = 2;
  candidate_id = 3;
  current_stage = interview;
  version = 3;
  history = [];
  created_at = 10;
  updated_at = 30;
}

abbrev interviews : List (Option Interview)
interviews =
    none
    ∷ some (record {
      id = 4;
      application_id = 1;
      interview_type = technical;
      format = onsite;
      status = completed;
      scheduled_start_time = 40;
      scheduled_end_time = 50;
      meeting_room_url = [];
      participants = [];
      feedbacks =
          record { interviewer_user_id = 7; score = 5; notes = codes "good"; submitted_at = 60 }
          ∷ [];
      version = 3;
      created_at = 30;
      updated_at = 60;
    })
    ∷ []

allowed : can_initiate_offer (some application) interviews ≡ none
unfolding can_initiate_offer has_evaluated
allowed = refl
