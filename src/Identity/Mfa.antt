-- ===== src/Identity/Mfa.antt =====
-- services/identity/internal/domain/mfa: mfa.go. A method returns the configuration that it leaves
-- and the error. The receiver is never nil.
pub mod Types
pub mod Totp
pub mod WebAuthn
pub mod Factors
pub mod Keeping
pub mod Recording
pub mod Finding
pub mod Promoting
pub mod Outcomes
pub mod SettingPrimary
pub mod Enrolling
pub mod Calls
pub mod Invariant
pub mod Growth
pub mod Reuse
pub mod Single
mod Tests
use careeria.Base.{
  ℕ, suc, ◌≡◌, Bool, true, false, not, ◌&&◌, ◌||◌, Option, none, some, List, [], ◌∷◌, ◌++◌,
  if◌then◌else◌, ◌==◌, is_some, set, Result, ok, err,
}
use careeria.Base.Finding.{index_where}
use careeria.Base.Others.{each_other}
use careeria.Base.Int.{ℤ}
use careeria.Base.Text.{Text}
use careeria.Domain.{Time, Uuid, is_zero, before, after, is_valid_id}
use careeria.Identity.Mfa.Types.{
  Error, Bytes, TotpAlgorithm, factor_not_found, factor_already_exists, enabled_totp_already_exists,
  credential_already_exists, identity_invalid, change_time_invalid,
}
use careeria.Identity.Mfa.Factors
use careeria.Identity.Mfa.Factors.{
  Factor, is_enabled, is_totp, has_id, factor_has_credential_id, rename, confirm, promote, demote,
  record_totp_use, record_web_authn_use, new_totp_factor, new_web_authn_factor,
}

pub record Mfa : Type 0 where
  pub identity_id : Uuid
  pub factors : List Factor

unfoldable pub new : Uuid → Result Error Mfa
new identity_id =
    if not (is_valid_id identity_id)
    then err identity_invalid
    else ok (record { identity_id = identity_id; factors = [] })

-- The loop of `latestUpdatedAt`.
unfoldable pub latest_updated : Time → List Factor → Time
latest_updated latest [] = latest
latest_updated latest (f ∷ fs) =
    latest_updated (if after f.updated_at latest then f.updated_at else latest) fs

-- `factorIndex`, with the factor at the index; `none` is -1.
abbrev pub factor_index : Mfa → Uuid → Option (ℕ × Factor)
factor_index m id = index_where (has_id id) m.factors

abbrev pub has_primary : Mfa → Bool
has_primary m = is_some (index_where (λ f. f.is_primary) m.factors)

abbrev pub enabled_totp : Factor → Bool
enabled_totp f = is_totp f && is_enabled f

abbrev pub has_enabled_totp : Mfa → Bool
has_enabled_totp m = is_some (index_where enabled_totp m.factors)

abbrev pub has_credential : Bytes → List Factor → Bool
has_credential id [] = false
has_credential id (f ∷ fs) = factor_has_credential_id id f || has_credential id fs

unfoldable pub ensure_change_allowed : Mfa → Time → Option Error
unfolding latest_updated
ensure_change_allowed m now =
    if is_zero now || before now (latest_updated 0 m.factors)
    then some change_time_invalid
    else none

-- The factor at an index, as a method of it left it.
abbrev pub put : Mfa → ℕ → Factor → Mfa
put m index f = record m { factors = set m.factors index f }

-- The guards that the methods on one factor share, and the method on the factor that is found.
unfoldable pub on_factor :
    Mfa → Uuid → Time → (ℕ → Factor → Mfa × Option Error) → Mfa × Option Error
unfolding ensure_change_allowed index_where
on_factor m id now change = elim (ensure_change_allowed m now) [
  | some e ↦ (m, some e)
  | none ↦ elim (factor_index m id) [
    | none ↦ (m, some factor_not_found)
    | some (index, f) ↦ change index f
  ]
]

-- A method of the factor that returns an error only.
abbrev pub change_at : Mfa → ℕ → Factor × Option Error → Mfa × Option Error
change_at m index (f, refused) = (put m index f, refused)

-- A method of the factor whose Boolean result is not looked at.
abbrev pub renamed_at : Mfa → ℕ → Factor × Result Error Bool → Mfa × Option Error
renamed_at m index (f, err e) = (put m index f, some e)
renamed_at m index (f, ok changed) = (put m index f, none)

unfoldable pub rename_factor : Mfa → Uuid → Option Text → Time → Mfa × Option Error
unfolding on_factor rename
rename_factor m id name now = on_factor m id now (λ index f. renamed_at m index (rename f name now))

unfoldable pub confirm_factor : Mfa → Uuid → Time → Mfa × Option Error
unfolding on_factor confirm index_where
confirm_factor m id now =
    on_factor m id now (λ index f. change_at m index (confirm f (not (has_primary m)) now))

-- The loop of `SetPrimaryFactor` over the factors from `position` on, up to the first error.
abbrev pub demote_others : List Factor → ℕ → ℕ → Time → List Factor × Option Error
demote_others fs position index now = each_other (λ f. demote f now) fs position index

-- `SetPrimaryFactor` from the promotion of the factor at an index on.
abbrev pub promoted_at : Mfa → ℕ → Time → Factor × Result Error Bool → Mfa × Option Error
promoted_at m index now (f, err e) = (put m index f, some e)
promoted_at m index now (f, ok false) = (put m index f, none)
promoted_at m index now (f, ok true) =
    let (fs, refused) = demote_others (set m.factors index f) 0 index now in
    (record m { factors = fs }, refused)

unfoldable pub set_primary_factor : Mfa → Uuid → Time → Mfa × Option Error
unfolding on_factor promote demote each_other
set_primary_factor m id now =
    on_factor m id now (λ index f. promoted_at m index now (promote f now))

unfoldable pub disable_factor : Mfa → Uuid → Time → Mfa × Option Error
unfolding on_factor Factors.disable
disable_factor m id now = on_factor m id now (λ index f. change_at m index (Factors.disable f now))

unfoldable pub enable_factor : Mfa → Uuid → Time → Mfa × Option Error
unfolding on_factor Factors.enable index_where
enable_factor m id now = on_factor m id now (λ index f.
    if is_enabled f
    then (m, none)
    else if is_totp f && has_enabled_totp m
    then (m, some enabled_totp_already_exists)
    else change_at m index (Factors.enable f now))

-- The two enrolments from the factor that they made on; `taken` is the test between.
unfoldable pub enrol : Mfa → Factor → Bool → Error → Mfa × Option Error
unfolding index_where
enrol m f taken taken_error =
    if is_some (factor_index m f.id)
    then (m, some factor_already_exists)
    else if taken
    then (m, some taken_error)
    else (record m { factors = m.factors ++ f ∷ [] }, none)

unfoldable pub enroll_totp :
    Mfa → Uuid → Option Text → Bytes → Text → TotpAlgorithm → ℤ → ℤ → Time → Mfa × Option Error
unfolding ensure_change_allowed new_totp_factor enrol index_where
enroll_totp m id name secret key_ref algorithm digits period now =
    elim (ensure_change_allowed m now) [
      | some e ↦ (m, some e)
      | none ↦ elim (new_totp_factor id name secret key_ref algorithm digits period now) [
        | err e ↦ (m, some e)
        | ok f ↦ enrol m f (has_enabled_totp m) enabled_totp_already_exists
      ]
    ]

unfoldable pub record_totp_factor_use : Mfa → Uuid → ℤ → Time → Mfa × Option Error
unfolding on_factor record_totp_use
record_totp_factor_use m id time_step now =
    on_factor m id now (λ index f. change_at m index (record_totp_use f time_step now))

unfoldable pub enroll_web_authn :
    Mfa
    → Uuid
    → Option Text
    → Bytes
    → Bytes
    → ℤ
    → Option Uuid
    → List Text
    → Bool
    → Bool
    → Time
    → Mfa × Option Error
unfolding ensure_change_allowed new_web_authn_factor enrol
enroll_web_authn m id name credential_id public_key sign_count aaguid transports eligible state
      now =
    elim (ensure_change_allowed m now) [
      | some e ↦ (m, some e)
      | none ↦
          elim (new_web_authn_factor id name credential_id public_key sign_count aaguid transports
            eligible state now) [
              | err e ↦ (m, some e)
              | ok f ↦ enrol m f (has_credential credential_id m.factors) credential_already_exists
            ]
    ]

unfoldable pub record_web_authn_factor_use : Mfa → Uuid → ℤ → Bool → Time → Mfa × Option Error
unfolding on_factor record_web_authn_use
record_web_authn_factor_use m id sign_count backup_state now =
    on_factor m id now
      (λ index f. change_at m index (record_web_authn_use f sign_count backup_state now))
