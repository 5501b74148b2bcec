-- ===== src/Identity/RecoveryCodeSet/Tests.antt =====
-- A set of two codes, of which the first is used, again and again, then the second.
use careeria.Base.{◌≡◌, refl, true, false, none, List, [], ◌∷◌, ok}
use careeria.Base.Text.{codes}
use careeria.Domain.{Time}
use careeria.Identity.RecoveryCodeSet.{
  CodeDefinition, RecoveryCodeSet, new, collect, use_code, use_found, use_one, code_index,
}
use careeria.Identity.RecoveryCodeSet.Marking.{accepted}
use careeria.Identity.RecoveryCodeSet.Uses.{Call, uses, disables, run, use_code_single_use}

abbrev definitions : List CodeDefinition
definitions = record { id = 10; hash = codes "a" } ∷ record { id = 11; hash = codes "b" } ∷ []

abbrev set_of_two : RecoveryCodeSet
set_of_two = record {
  id = 1;
  identity_id = 2;
  codes =
      record { id = 10; hash = codes "a"; created_at = 100; used_at = none }
      ∷ record { id = 11; hash = codes "b"; created_at = 100; used_at = none }
      ∷ [];
  created_at = 100;
  expires_at = none;
  disabled_at = none;
}

abbrev calls : List (Call × Time)
calls = (uses 10, 200) ∷ (uses 10, 250) ∷ (uses 11, 300) ∷ (disables, 400) ∷ []

set_made : new 1 2 definitions none 100 ≡ ok set_of_two
unfolding new collect
set_made = refl

first_accepted : accepted (use_code set_of_two 10 150).1 ≡ true
unfolding accepted use_code use_found use_one code_index
first_accepted = refl

use_code_single_use_example :
    accepted (use_code (run (use_code set_of_two 10 150).0 calls).0 10 500).1 ≡ false
use_code_single_use_example = use_code_single_use set_of_two 10 150 500 calls first_accepted
