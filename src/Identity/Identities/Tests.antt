-- ===== src/Identity/Identities/Tests.antt =====
-- An identity with two emails, from its creation to its removal.
use careeria.Base.{◌≡◌, refl, true, none, some, List, [], ◌∷◌, ok}
use careeria.Base.Text.{codes}
use careeria.Domain.{Time}
use careeria.Identity.Identities.Contacts.{login_method_required}
use careeria.Identity.Identities.Histories.{
  Call, activates, adds_email, verifies_email, sets_primary_email, removes_email, with_email,
  perform, run, new-run_identity-WellFormed,
}
use careeria.Identity.Identities.Deletion.{}
use careeria.Identity.Identities.Invariant.{WellFormed}
use careeria.Identity.Identities.Methods.{add_email, verify_email, set_primary_email, remove_email}
use careeria.Identity.Identities.{Identity, pending, new_with_email, activate, delete}

abbrev person : Identity
person = record {
  id = 1;
  status = pending;
  emails =
      record {
        id = 2;
        value = codes "a@b.c";
        is_primary = true;
        created_at = 100;
        updated_at = 100;
        verified_at = none;
        deleted_at = none;
      }
      ∷ [];
  phones = [];
  accounts = [];
  created_at = 100;
  updated_at = 100;
  deleted_at = none;
}

abbrev calls : List (Call × Time)
calls =
    (verifies_email 2, 110)
    ∷ (activates, 120)
    ∷ (adds_email 3 (codes "d@e.f"), 130)
    ∷ (verifies_email 3, 140)
    ∷ (sets_primary_email 3, 150)
    ∷ (removes_email 2, 160)
    ∷ []

person_made : new_with_email 1 2 (codes "a@b.c") 100 ≡ ok person
unfolding new_with_email
person_made = refl

last_kept : (perform (run person calls) (removes_email 3) 170).1 ≡ some login_method_required
unfolding run add_email verify_email set_primary_email remove_email activate
last_kept = refl

new-run_identity-WellFormed_example : WellFormed (run person calls)
new-run_identity-WellFormed_example =
    new-run_identity-WellFormed person calls (with_email 1 2 (codes "a@b.c") 100 person_made)

person_deleted : (delete person 105).1 ≡ none
unfolding delete
person_deleted = refl
