-- ===== src/Identity/Identities/Contacts.antt =====
-- services/identity/internal/domain/identity: email.go and phone.go, whose entities have the same
-- fields and methods: a `Contact` is an email with its address or a phone with its number. Then the
-- methods of identity.go on one list of them. The errors of errors.go and of the methods say which
-- kind they are about.
use careeria.Base.{
  ℕ, Bool, true, false, not, ◌&&◌, ◌||◌, Option, none, some, List, [], ◌∷◌, ◌++◌, set, is_some,
  if◌then◌else◌, ◌==◌, ltb, Result, ok, err, equal_list, nat_comparable,
}
use careeria.Base.Finding.{often, index_where}
use careeria.Base.Others.{each_other}
use careeria.Base.Text.{Text}
use careeria.Domain.{Time, Uuid, is_zero, before, is_valid_id}

pub data Kind : Type 0 where
  email phone : Kind

pub data Error : Type 0 where
  constructor_invalid invalid_status invalid_transition login_method_required : Error
  change_time_invalid : Error
  not_found already_exists contact_invalid already_verified not_verified : Kind → Error
  contact_deleted contact_time_invalid primary_needed : Kind → Error
  account_not_found account_exists account_disabled account_invalid : Error
  account_deleted account_time_invalid account_not_disabled : Error

pub record Contact : Type 0 where
  pub id : Uuid
  pub value : Text
  pub is_primary : Bool
  pub created_at : Time
  pub updated_at : Time
  pub verified_at : Option Time
  pub deleted_at : Option Time

unfoldable pub new_contact : Kind → Uuid → Text → Bool → Time → Result Error Contact
new_contact kind id value primary now =
    if not (is_valid_id id) || is_zero now
    then err (contact_invalid kind)
    else ok (record {
      id = id;
      value = value;
      is_primary = primary;
      created_at = now;
      updated_at = now;
      verified_at = none;
      deleted_at = none;
    })

abbrev pub is_active : Contact → Bool
is_active c = not (is_some c.deleted_at)

abbrev pub is_usable : Contact → Bool
is_usable c = is_active c && is_some c.verified_at

abbrev pub is_primary_contact : Contact → Bool
is_primary_contact c = is_active c && c.is_primary

abbrev pub has_value : Text → Contact → Bool
has_value value c = equal_list c.value value

abbrev pub has_id : Uuid → Contact → Bool
has_id id c = is_active c && c.id == id

abbrev pub ensure_change_allowed : Kind → Contact → Time → Option Error
ensure_change_allowed kind c now =
    if not (is_active c)
    then some (contact_deleted kind)
    else if is_zero now || before now c.updated_at
    then some (contact_time_invalid kind)
    else none

unfoldable pub verify : Kind → Contact → Time → Contact × Option Error
verify kind c now = elim (ensure_change_allowed kind c now) [
  | some e ↦ (c, some e)
  | none ↦
      if is_some c.verified_at
      then (c, some (already_verified kind))
      else (record c { verified_at = some now; updated_at = now }, none)
]

unfoldable pub promote : Kind → Contact → Time → Contact × Result Error Bool
promote kind c now = elim (ensure_change_allowed kind c now) [
  | some e ↦ (c, err e)
  | none ↦
      if not (is_some c.verified_at)
      then (c, err (not_verified kind))
      else if c.is_primary
      then (c, ok false)
      else (record c { is_primary = true; updated_at = now }, ok true)
]

unfoldable pub demote : Kind → Contact → Time → Contact × Option Error
demote kind c now =
    if not (is_active c) || not c.is_primary
    then (c, none)
    else elim (ensure_change_allowed kind c now) [
      | some e ↦ (c, some e)
      | none ↦ (record c { is_primary = false; updated_at = now }, none)
    ]

unfoldable pub remove : Kind → Contact → Time → Contact × Option Error
remove kind c now = elim (ensure_change_allowed kind c now) [
  | some e ↦ (c, some e)
  | none ↦ (record c { is_primary = false; deleted_at = some now; updated_at = now }, none)
]

-- How a method of the identity goes on after it has changed a list: it returns an error, it returns
-- without a change, or it sets the time of the change.
pub data Effect : Type 0 where
  refused : Error → Effect
  kept changed : Effect

-- `activeEmailCount`, `activePhoneCount`
abbrev pub active_count : List Contact → ℕ
active_count cs = often is_active cs

abbrev pub has_contact : Text → List Contact → Bool
has_contact value cs = is_some (index_where (has_value value) cs)

-- The rest of `AddEmail` and `AddPhone` after the identity's guard.
unfoldable pub add : Kind → List Contact → Uuid → Text → Time → List Contact × Effect
unfolding index_where new_contact
add kind cs id value now =
    if has_contact value cs
    then (cs, refused (already_exists kind))
    else elim (new_contact kind id value (active_count cs == 0) now) [
      | err e ↦ (cs, refused e)
      | ok c ↦ (cs ++ c ∷ [], changed)
    ]

-- A method that returns an error only, on the contact at an index.
abbrev pub changed_at : List Contact → ℕ → Contact × Option Error → List Contact × Effect
changed_at cs index (c, some e) = (set cs index c, refused e)
changed_at cs index (c, none) = (set cs index c, changed)

-- The rest of `VerifyEmail` and `VerifyPhone`.
unfoldable pub verify_at : Kind → List Contact → Uuid → Time → List Contact × Effect
unfolding index_where verify
verify_at kind cs id now = elim (index_where (has_id id) cs) [
  | none ↦ (cs, refused (not_found kind))
  | some (index, c) ↦ changed_at cs index (verify kind c now)
]

-- The loop of `SetPrimaryEmail` and `SetPrimaryPhone` from `position` on, up to the first error.
abbrev pub demote_others : Kind → List Contact → ℕ → ℕ → Time → List Contact × Option Error
demote_others kind cs position index now = each_other (λ c. demote kind c now) cs position index

abbrev pub demoted : List Contact × Option Error → List Contact × Effect
demoted (cs, some e) = (cs, refused e)
demoted (cs, none) = (cs, changed)

-- From the promotion of the contact at an index on.
abbrev pub promoted_at :
    Kind → List Contact → ℕ → Time → Contact × Result Error Bool → List Contact × Effect
promoted_at kind cs index now (c, err e) = (set cs index c, refused e)
promoted_at kind cs index now (c, ok false) = (set cs index c, kept)
promoted_at kind cs index now (c, ok true) =
    demoted (demote_others kind (set cs index c) 0 index now)

-- The rest of `SetPrimaryEmail` and `SetPrimaryPhone`.
unfoldable pub set_primary_at : Kind → List Contact → Uuid → Time → List Contact × Effect
unfolding index_where promote demote each_other
set_primary_at kind cs id now = elim (index_where (has_id id) cs) [
  | none ↦ (cs, refused (not_found kind))
  | some (index, c) ↦ promoted_at kind cs index now (promote kind c now)
]

-- The rest of `RemoveEmail` and `RemovePhone`; `removable` is the check of the login methods that
-- are left without the contact at an index.
unfoldable pub remove_at :
    Kind → (ℕ → Option Error) → List Contact → Uuid → Time → List Contact × Effect
unfolding index_where remove
remove_at kind removable cs id now = elim (index_where (has_id id) cs) [
  | none ↦ (cs, refused (not_found kind))
  | some (index, c) ↦
      if is_primary_contact c && ltb 1 (active_count cs)
      then (cs, refused (primary_needed kind))
      else elim (removable index) [
        | some e ↦ (cs, refused e)
        | none ↦ changed_at cs index (remove kind c now)
      ]
]
