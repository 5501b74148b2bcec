-- ===== src/Base/Int.antt =====
-- Go's `int` where its sign matters: `negsuc n` is -(n + 1). `decimal` is `fmt`'s `%d`.
use careeria.Base.{
  ℕ, zero, suc, ◌+◌, ◌/◌, ◌%◌, ◌≤◌, ◌≡◌, refl, Bool, ◌&&◌, [], ◌∷◌, ltb, leb, if◌then◌else◌,
}
use careeria.Base.Text.{Text, codes}

pub data ℤ : Type 0 where
  pos : ℕ → ℤ
  negsuc : ℕ → ℤ

abbrev pub pos_part : ℤ → ℕ
pos_part (pos n) = n
pos_part (negsuc n) = 0

abbrev pub neg_part : ℤ → ℕ
neg_part (pos n) = 0
neg_part (negsuc n) = suc n

infix 50 ◌≤ℤ◌
abbrev pub ◌≤ℤ◌ : ℤ → ℤ → Type 0
a ≤ℤ b = pos_part a + neg_part b ≤ pos_part b + neg_part a

-- `a <= b`
abbrev pub int_leb : ℤ → ℤ → Bool
int_leb a b = leb (pos_part a + neg_part b) (pos_part b + neg_part a)

-- `==` on `int`.
abbrev pub int_equal : ℤ → ℤ → Bool
int_equal a b = int_leb a b && int_leb b a

-- The digits of `n` in front of `acc`; the fuel is above the number of digits.
digits_onto : ℕ → ℕ → Text → Text
digits_onto zero n acc = acc
digits_onto (suc fuel) n acc =
    let digit = n % 10 + 48 in
    let rest = digits_onto fuel (n / 10) (digit ∷ acc) in if ltb n 10 then digit ∷ acc else rest

unfoldable pub decimal : ℤ → Text
unfolding digits_onto
decimal (pos n) = digits_onto (suc n) n []
decimal (negsuc n) = b'-' ∷ digits_onto (suc (suc n)) (suc n) []

decimal_runs : decimal (pos 1204) ≡ codes "1204"
unfolding decimal
decimal_runs = refl
