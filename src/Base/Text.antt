-- ===== src/Base/Text.antt =====
-- Go strings as their code points, and what the program uses of `strings` and `unicode`:
-- `unicode.IsSpace`, `strings.TrimSpace`, `strings.IndexFunc(s, unicode.IsSpace) < 0`.
-- A string with invalid UTF-8 has no value here.
use Prim.Native.Char.{code}
use Prim.Native.String.{String}
use careeria.Base.{
  ℕ, ◌≡◌, refl, Bool, false, ◌||◌, ◌&&◌, ◌⊎◌, inl, inr, List, [], ◌∷◌, arith, ◌==◌, leb, ltb, ◌+◌,
  if◌then◌else◌, is_empty, Bool-cases,
}

abbrev pub Text : Type 0
Text = List ℕ

-- A string literal of the source.
abbrev pub codes : String → Text
codes String.[] = []
codes (String.◌∷◌ c s) = code c ∷ codes s

-- `len(s)`: the bytes of the UTF-8 encoding.
unfoldable pub byte_length : Text → ℕ
byte_length [] = 0
byte_length (c ∷ s) =
    byte_length s
    + (if ltb c 0x80 then 1 else if ltb c 0x800 then 2 else if ltb c 0x10000 then 3 else 4)

-- `unicode.IsSpace`: the Latin-1 spaces, and the other code points of White_Space.
unfoldable pub is_space : ℕ → Bool
is_space c =
    leb 0x09 c && leb c 0x0d
    || c == 0x20
    || c == 0x85
    || c == 0xa0
    || c == 0x1680
    || leb 0x2000 c && leb c 0x200a
    || c == 0x2028
    || c == 0x2029
    || c == 0x202f
    || c == 0x205f
    || c == 0x3000

trim_left : Text → Text
trim_left [] = []
trim_left (c ∷ s) = let rest = trim_left s in if is_space c then rest else c ∷ s

trim_right : Text → Text
trim_right [] = []
trim_right (c ∷ s) = let rest = trim_right s in if is_empty rest && is_space c then [] else c ∷ rest

-- `strings.TrimSpace`
unfoldable pub trim_space : Text → Text
unfolding trim_left trim_right is_space
trim_space s = trim_right (trim_left s)

-- `strings.IndexFunc(s, unicode.IsSpace) >= 0`
unfoldable pub has_space : Text → Bool
unfolding is_space
has_space [] = false
has_space (c ∷ s) = is_space c || has_space s

trim_left-cases :
    (s : Text)
    → (trim_left s ≡ []) ⊎ ((c : ℕ) × (r : Text) × (trim_left s ≡ c ∷ r) × (is_space c ≡ false))
unfolding trim_left
trim_left-cases [] = inl refl
trim_left-cases (c ∷ s) = elim (Bool-cases (is_space c)) [
  | inl space ↦ rw space (trim_left-cases s)
  | inr ink ↦ inr (c, s, rw ink, ink)
]

trim_right_idem : (s : Text) → trim_right (trim_right s) ≡ trim_right s
unfolding trim_right
trim_right_idem [] = refl
trim_right_idem (c ∷ s) = elim (Bool-cases (is_empty (trim_right s) && is_space c)) [
  | inl blank ↦ rw blank
  | inr ink ↦ rw (ink, trim_right, trim_right_idem s, ink)
]

trim_left-trim_right :
    (c : ℕ) (s : Text) → is_space c ≡ false → trim_left (trim_right (c ∷ s)) ≡ trim_right (c ∷ s)
unfolding trim_left trim_right
trim_left-trim_right c s ink = ground arith

-- Trimming again changes nothing.
pub trim_space_idem : (s : Text) → trim_space (trim_space s) ≡ trim_space s
unfolding trim_space
trim_space_idem s = elim (trim_left-cases s) [
  | inl blank ↦ rw blank
  | inr (c, r, e, ink) ↦ rw (e, trim_left-trim_right c r ink) (trim_right_idem (c ∷ r))
]

trim_space_runs : trim_space (codes " \n ab c\t") ≡ codes "ab c"
unfolding trim_space
trim_space_runs = refl
