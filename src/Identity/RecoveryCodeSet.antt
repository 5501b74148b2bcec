-- ===== src/Identity/RecoveryCodeSet.antt =====
-- services/identity/internal/domain/recoverycodeset: recovery_code.go, recovery_code_set.go and
-- types.go. A method returns the set that it leaves and Go's result.
pub mod Marking
pub mod Uses
mod Tests
use careeria.Base.{
  ℕ, suc, ◌+◌, Bool, true, false, not, ◌||◌, Option, none, some, List, [], ◌∷◌, ◌++◌, ◌==◌,
  if◌then◌else◌, is_some, is_empty, set, contains, Result, ok, err, nat_comparable, list_comparable,
}
use careeria.Base.Text.{Text}
use careeria.Domain.{Time, Uuid, before, after, is_zero, is_valid_id, later, has_text}

pub data Error : Type 0 where
  identifier_required identity_invalid time_invalid expiration_not_after : Error
  code_required code_id_invalid code_time_invalid code_id_duplicated code_hash_duplicated : Error
  disable_time_invalid use_time_invalid code_use_time_invalid code_hash_required : Error
  disabled lapsed code_not_found code_used : Error

pub data UseOutcome : Type 0 where
  used exhausted : UseOutcome

unfoldable pub new_code_hash : Text → Result Error Text
unfolding has_text
new_code_hash value = if not (has_text value) then err code_hash_required else ok value

pub record CodeDefinition : Type 0 where
  pub id : Uuid
  pub hash : Text

pub record RecoveryCode : Type 0 where
  pub id : Uuid
  pub hash : Text
  pub created_at : Time
  pub used_at : Option Time

abbrev pub new_recovery_code : Uuid → Text → Time → Result Error RecoveryCode
new_recovery_code id hash now =
    if not (is_valid_id id)
    then err code_id_invalid
    else if is_zero now
    then err code_time_invalid
    else ok (record { id = id; hash = hash; created_at = now; used_at = none })

abbrev pub changed_at : RecoveryCode → Time
changed_at c = later c.used_at c.created_at

unfoldable pub use_one : RecoveryCode → Time → RecoveryCode × Option Error
use_one c now =
    if is_zero now || before now (changed_at c)
    then (c, some code_use_time_invalid)
    else if is_some c.used_at
    then (c, some code_used)
    else (record c { used_at = some now }, none)

pub record RecoveryCodeSet : Type 0 where
  pub id : Uuid
  pub identity_id : Uuid
  pub codes : List RecoveryCode
  pub created_at : Time
  pub expires_at : Option Time
  pub disabled_at : Option Time

-- `expiresAt != nil && !expiresAt.After(now)`
abbrev pub over : Option Time → Time → Bool
over none now = false
over (some t) now = not (after t now)

-- The loop of `New`, with the sets of the identifiers and hashes seen and the codes made.
unfoldable pub collect :
    List Uuid
    → List Text
    → List RecoveryCode
    → List CodeDefinition
    → Time
    → Result Error (List RecoveryCode)
collect ids hashes codes [] now = ok codes
collect ids hashes codes (d ∷ ds) now = elim (new_recovery_code d.id d.hash now) [
  | err e ↦ err e
  | ok code ↦
      let rest = collect (code.id ∷ ids) (code.hash ∷ hashes) (codes ++ code ∷ []) ds now in
      if contains ids code.id
      then err code_id_duplicated
      else if contains hashes code.hash
      then err code_hash_duplicated
      else rest
]

unfoldable pub new :
    Uuid → Uuid → List CodeDefinition → Option Time → Time → Result Error RecoveryCodeSet
unfolding collect
new id identity_id definitions expires_at now =
    if not (is_valid_id id)
    then err identifier_required
    else if not (is_valid_id identity_id)
    then err identity_invalid
    else if is_zero now
    then err time_invalid
    else if over expires_at now
    then err expiration_not_after
    else if is_empty definitions
    then err code_required
    else elim (collect [] [] [] definitions now) [
      | err e ↦ err e
      | ok codes ↦ ok (record {
        id = id;
        identity_id = identity_id;
        codes = codes;
        created_at = now;
        expires_at = expires_at;
        disabled_at = none;
      })
    ]

-- The loop of `latestCodeUseAt`.
abbrev pub latest_code_use : Time → List RecoveryCode → Time
latest_code_use latest [] = latest
latest_code_use latest (c ∷ cs) =
    latest_code_use (if after (changed_at c) latest then changed_at c else latest) cs

abbrev pub latest_changed_at : RecoveryCodeSet → Time
latest_changed_at s = later s.disabled_at (latest_code_use s.created_at s.codes)

-- `codeIndex`, with the code at the index; `none` is -1.
unfoldable pub code_index : List RecoveryCode → Uuid → Option (ℕ × RecoveryCode)
code_index [] id = none
code_index (c ∷ cs) id =
    let rest = code_index cs id in
    if c.id == id
    then some (0, c)
    else elim rest [ none ↦ none | some (index, found) ↦ some (suc index, found) ]

abbrev pub unused_code_count : List RecoveryCode → ℕ
unused_code_count [] = 0
unused_code_count (c ∷ cs) =
    let rest = unused_code_count cs in if not (is_some c.used_at) then suc rest else rest

unfoldable pub disable : RecoveryCodeSet → Time → RecoveryCodeSet × Option Error
disable s now =
    if is_some s.disabled_at
    then (s, none)
    else if is_zero now || before now (latest_changed_at s)
    then (s, some disable_time_invalid)
    else (record s { disabled_at = some now }, none)

-- `UseCode` from the use of the code that it found on.
unfoldable pub use_found :
    RecoveryCodeSet → ℕ → RecoveryCode → Time → RecoveryCodeSet × Result Error UseOutcome
unfolding use_one
use_found s index code now =
    let (code', refused) = use_one code now in
    let s' = record s { codes = set s.codes index code' } in
    elim refused [
      | some e ↦ (s, err e)
      | none ↦
          if unused_code_count s'.codes == 0
          then (record s' { disabled_at = some now }, ok exhausted)
          else (s', ok used)
    ]

unfoldable pub use_code : RecoveryCodeSet → Uuid → Time → RecoveryCodeSet × Result Error UseOutcome
unfolding code_index use_found
use_code s id now =
    if is_zero now || before now (latest_changed_at s)
    then (s, err use_time_invalid)
    else if is_some s.disabled_at
    then (s, err disabled)
    else if over s.expires_at now
    then (s, err lapsed)
    else elim (code_index s.codes id) [
      | none ↦ (s, err code_not_found)
      | some (index, code) ↦ use_found s index code now
    ]
