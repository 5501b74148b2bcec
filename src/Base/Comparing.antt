-- ===== src/Base/Comparing.antt =====
-- Go's `comparable`: a type with `==`.
use Prim.Native.Nat.{ℕ}
use mathlib.Core.Path.{◌≡◌, refl, sym}
use mathlib.Core.Logic.{◌↔◌}
use mathlib.Core.Bool.{Bool, true, false, ◌&&◌, ◌||◌}
use mathlib.Core.List.{List, [], ◌∷◌, ◌++◌}
use native.Mathlib.Omega.{arith}
use careeria.Base.Tests.{◌==◌, ==_iff}

pub record Comparable {ℓ} (A : Type ℓ) : Type ℓ where
  pub equal : A → A → Bool
  pub equal_iff : (a b : A) → (equal a b ≡ true) ↔ (a ≡ b)

abbrev pub equal {ℓ} : {A : Type ℓ} ⦃c : Comparable A⦄ → A → A → Bool
equal ⦃c⦄ = c.equal

instance abbrev pub nat_comparable : Comparable ℕ
nat_comparable = record { equal = ◌==◌; equal_iff = ==_iff }

module _ {ℓ} {A : Type ℓ} ⦃c : Comparable A⦄ where
  abbrev pub equal_list : List A → List A → Bool
  equal_list [] [] = true
  equal_list (x ∷ xs) (y ∷ ys) = c.equal x y && equal_list xs ys
  equal_list _ _ = false

  equal_list_sound : (xs ys : List A) → equal_list xs ys ≡ true → xs ≡ ys
  equal_list_sound [] [] h = refl
  equal_list_sound [] (y ∷ ys) h = cc
  equal_list_sound (x ∷ xs) [] h = cc
  equal_list_sound (x ∷ xs) (y ∷ ys) h = ground (arith, (c.equal_iff x y).0, equal_list_sound xs ys)

  equal_list_refl : (xs : List A) → equal_list xs xs ≡ true
  equal_list_refl [] = refl
  equal_list_refl (x ∷ xs) = ground (arith, (c.equal_iff x x).1 refl, equal_list_refl xs)

  pub equal_list_iff : (xs ys : List A) → (equal_list xs ys ≡ true) ↔ (xs ≡ ys)
  equal_list_iff xs ys = (equal_list_sound xs ys, λ e. rw e (equal_list_refl ys))

  instance abbrev pub list_comparable : Comparable (List A)
  list_comparable = record { equal = equal_list; equal_iff = equal_list_iff }

  -- Membership, as a lookup in a set built from the list.
  abbrev pub contains : List A → A → Bool
  contains [] a = false
  contains (x ∷ xs) a = c.equal x a || contains xs a

  pub contains-append :
      (xs ys : List A) (a : A) → contains (xs ++ ys) a ≡ (contains xs a || contains ys a)
  contains-append [] ys a = refl
  contains-append (x ∷ xs) ys a = ground (arith, contains-append xs ys a)

  pub equal_comm : (a b : A) → c.equal a b ≡ c.equal b a
  equal_comm a b = ground (
    arith,
    (c.equal_iff a b).0,
    (c.equal_iff b a).0,
    λ (e : a ≡ b). (c.equal_iff b a).1 (sym e),
    λ (e : b ≡ a). (c.equal_iff a b).1 (sym e),
  )

  -- No two entries are equal.
  abbrev pub Distinct : List A → Type 0
  Distinct [] = Unit
  Distinct (x ∷ xs) = (contains xs x ≡ false) × Distinct xs

  -- Every entry of the first list is in the second.
  abbrev pub Within : List A → List A → Type 0
  Within [] ys = Unit
  Within (x ∷ xs) ys = (contains ys x ≡ true) × Within xs ys

  pub Within-contains :
      (xs ys : List A) (a : A) → Within xs ys → contains xs a ≡ true → contains ys a ≡ true
  Within-contains [] ys a w h = cc
  Within-contains (x ∷ xs) ys a w h =
      ground (arith, (c.equal_iff x a).0, Within-contains xs ys a w.1)

  -- An entry that is new may be put at the end.
  pub Distinct-snoc :
      (xs : List A) (a : A) → Distinct xs → contains xs a ≡ false → Distinct (xs ++ a ∷ [])
  Distinct-snoc [] a d h = (refl, tt)
  Distinct-snoc (x ∷ xs) a d h = (
    ground (arith, contains-append xs (a ∷ []) x, equal_comm a x),
    Distinct-snoc xs a d.1 (ground arith),
  )
