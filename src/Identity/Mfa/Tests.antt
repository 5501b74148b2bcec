-- ===== src/Identity/Mfa/Tests.antt =====
-- A configuration with a TOTP factor and a WebAuthn factor.
use careeria.Base.{◌≡◌, refl, true, false, none, some, List, [], ◌∷◌, is_some, ok, arith}
use careeria.Base.Int.{pos}
use careeria.Base.Text.{codes}
use careeria.Domain.{Time}
use careeria.Identity.Mfa.Types.{sha1}
use careeria.Identity.Mfa.{
  Mfa, new, set_primary_factor, record_totp_factor_use, record_web_authn_factor_use, enroll_totp,
  enroll_web_authn, confirm_factor,
}
use careeria.Identity.Mfa.Calls.{
  Call, enrols_totp, enrols_web_authn, confirms, renames, disables, perform, run,
  mfa_error_unchanged,
}
use careeria.Identity.Mfa.Invariant.{WellFormed, new-run_mfa-WellFormed}
use careeria.Identity.Mfa.Reuse.{totp_single_use, web_authn_counter_increases}
use careeria.Identity.Mfa.Single.{OnlyPrimary, set_primary_factor-OnlyPrimary}

abbrev empty : Mfa
empty = record { identity_id = 7; factors = [] }

abbrev enrolments : List (Call × Time)
enrolments =
    (enrols_totp 10 none (1 ∷ []) (codes "key") sha1 (pos 6) (pos 30), 100)
    ∷ (enrols_web_authn 11 none (2 ∷ []) (3 ∷ []) (pos 4) none [] false false, 110)
    ∷ (confirms 10, 120)
    ∷ (confirms 11, 130)
    ∷ []

abbrev between : List (Call × Time)
between = (renames 10 (some (codes "phone")), 300) ∷ (disables 11, 310) ∷ []

abbrev enrolled : Mfa
enrolled = run empty enrolments

made : new 7 ≡ ok empty
unfolding new
made = refl

enrolled-WellFormed : WellFormed enrolled
enrolled-WellFormed = new-run_mfa-WellFormed 7 empty enrolments made

new-run_mfa-WellFormed_example : WellFormed (run empty enrolments)
new-run_mfa-WellFormed_example = new-run_mfa-WellFormed 7 empty enrolments made

first_step : (record_totp_factor_use enrolled 10 (pos 55) 200).1 ≡ none
unfolding run record_totp_factor_use confirm_factor enroll_web_authn enroll_totp
first_step = refl

totp_single_use_example :
    is_some
      (record_totp_factor_use
        (run (record_totp_factor_use enrolled 10 (pos 55) 200).0 between)
        10
        (pos 55)
        400).1
    ≡ true
totp_single_use_example =
    totp_single_use enrolled 10 (pos 55) (pos 55) 200 400 between first_step (omega arith)

first_count : (record_web_authn_factor_use enrolled 11 (pos 5) false 200).1 ≡ none
unfolding run record_web_authn_factor_use confirm_factor enroll_web_authn enroll_totp
first_count = refl

web_authn_counter_increases_example :
    is_some
      (record_web_authn_factor_use
        (run (record_web_authn_factor_use enrolled 11 (pos 5) false 200).0 between)
        11
        (pos 5)
        true
        400).1
    ≡ true
web_authn_counter_increases_example =
    web_authn_counter_increases enrolled 11 (pos 5) (pos 5) false true 200 400 between first_count
      refl (omega arith)

second_primary : (set_primary_factor enrolled 11 200).1 ≡ none
unfolding run set_primary_factor confirm_factor enroll_web_authn enroll_totp
second_primary = refl

set_primary_factor-OnlyPrimary_example : OnlyPrimary (set_primary_factor enrolled 11 200).0 11
set_primary_factor-OnlyPrimary_example =
    set_primary_factor-OnlyPrimary enrolled 11 200 enrolled-WellFormed second_primary

taken : is_some (perform enrolled (confirms 12) 200).1 ≡ true
unfolding run confirm_factor enroll_web_authn enroll_totp
taken = refl

mfa_error_unchanged_example : (perform enrolled (confirms 12) 200).0 ≡ enrolled
mfa_error_unchanged_example = mfa_error_unchanged enrolled (confirms 12) 200 taken
