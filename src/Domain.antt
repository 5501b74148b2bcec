-- ===== src/Domain.antt =====
-- services/identity/internal/domain/helpers.go, and the types that the domain packages share:
-- instants, identifiers and their zero values.
pub mod Duplicates
pub mod Texts
mod Tests
use careeria.Base.{
  ℕ, Bool, true, false, not, ◌&&◌, Option, none, some, List, [], ◌∷◌, ltb, ◌==◌, if◌then◌else◌,
  is_empty, Comparable, contains, nat_comparable, equal_list,
}
use careeria.Base.Text.{Text, trim_space, has_space}

-- `time.Time`: nanoseconds since the zero time, which `IsZero` recognises.
abbrev pub Time : Type 0
Time = ℕ

-- `time.Duration`, where it is not negative, in nanoseconds.
abbrev pub Duration : Type 0
Duration = ℕ

abbrev pub before : Time → Time → Bool
before a b = ltb a b

abbrev pub after : Time → Time → Bool
after a b = ltb b a

abbrev pub is_zero : Time → Bool
is_zero t = t == 0

-- `uuid.UUID` as its 128-bit number; `uuid.Nil` is 0.
abbrev pub Uuid : Type 0
Uuid = ℕ

-- `id.IsValid()` of every identifier type.
abbrev pub is_valid_id : Uuid → Bool
is_valid_id id = not (id == 0)

unfoldable pub minimum_time : Time → Time → Time
minimum_time first second = if before first second then first else second

-- `if value != nil && value.After(latest) { latest = *value }`
abbrev pub later : Option Time → Time → Time
later none latest = latest
later (some t) latest = if after t latest then t else latest

-- The loop over pointers to times that starts at `latest`.
abbrev pub latest_of : Time → List (Option Time) → Time
latest_of latest [] = latest
latest_of latest (value ∷ values) = latest_of (later value latest) values

unfoldable pub normalize_optional_text : Option Text → Option Text
normalize_optional_text none = none
normalize_optional_text (some value) =
    let normalized = trim_space value in if is_empty normalized then none else some normalized

unfoldable pub normalize_required_text : Text → Text × Bool
normalize_required_text value = let value = trim_space value in (value, not (is_empty value))

abbrev pub equal_optional_text : Option Text → Option Text → Bool
equal_optional_text none none = true
equal_optional_text (some left) (some right) = equal_list left right
equal_optional_text _ _ = false

unfoldable pub has_text : Text → Bool
has_text value = not (is_empty (trim_space value))

unfoldable pub normalize_token : Text → Text × Bool
unfolding normalize_required_text
normalize_token value =
    let (value, ok) = normalize_required_text value in (value, ok && not (has_space value))

module _ {ℓ} {A : Type ℓ} ⦃c : Comparable A⦄ where
  -- The loop of `HasDuplicates`, with the set of the values seen.
  unfoldable pub has_duplicates_from : List A → List A → Bool
  has_duplicates_from seen [] = false
  has_duplicates_from seen (value ∷ values) =
      let rest = has_duplicates_from (value ∷ seen) values in
      if contains seen value then true else rest

  unfoldable pub has_duplicates : List A → Bool
  unfolding has_duplicates_from
  has_duplicates values = has_duplicates_from [] values
