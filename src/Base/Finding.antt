-- ===== src/Base/Finding.antt =====
-- The loops over a list that look for an element: what they find, and the list with the element at
-- an index changed.
use careeria.Base.{
  ℕ, zero, suc, ◌+◌, ◌≡◌, refl, Bool, true, false, Option, none, some, List, [], ◌∷◌, ◌++◌, arith,
  is_some, set, All, ap, Bool-cases, Option-cases, inl, inr, if◌then◌else◌,
}

abbrev pub unit_of : Bool → ℕ
unit_of true = 1
unit_of false = 0

module _ {A : Type 0} where
  -- How many elements pass a test.
  abbrev pub often : (A → Bool) → List A → ℕ
  often test [] = 0
  often test (f ∷ fs) = unit_of (test f) + often test fs

  -- The loop that returns the index of the first element that passes, or -1: the index with the
  -- element at it.
  unfoldable pub index_where : (A → Bool) → List A → Option (ℕ × A)
  index_where test [] = none
  index_where test (f ∷ fs) =
      let rest = index_where test fs in
      if test f
      then some (0, f)
      else elim rest [ none ↦ none | some (index, found) ↦ some (suc index, found) ]

module _ {A : Type 0} (test : A → Bool) where
  pub often-append :
      (fs : List A) (f : A) → often test (fs ++ f ∷ []) ≡ often test fs + unit_of (test f)
  often-append [] f = omega arith
  often-append (x ∷ fs) f = omega (arith, often-append fs f)

  -- The element is the first that passes, and stands at the index.
  pub data Found : List A → ℕ → A → Type 0 where
    here : {f : A} {fs : List A} → test f ≡ true → Found (f ∷ fs) zero f
    there :
        {x f : A} {fs : List A} {i : ℕ} → test x ≡ false → Found fs i f → Found (x ∷ fs) (suc i) f

  pub index_where-Found :
      (fs : List A) (i : ℕ) (f : A) → index_where test fs ≡ some (i, f) → Found fs i f
  unfolding index_where
  index_where-Found [] i f h = cc
  index_where-Found (x ∷ fs) i f h = elim (Bool-cases (test x)) [
    | inl hit ↦ first hit (ground arith) (ground arith)
    | inr miss ↦ elim (Option-cases (index_where test fs)) [
      | inl e ↦ ground arith
      | inr ((j, y), e) ↦
          later (ground arith) (ground arith) (there miss (index_where-Found fs j y e))
    ]
  ]
    where
      first : {i : ℕ} {f : A} → test x ≡ true → i ≡ 0 → x ≡ f → Found (x ∷ fs) i f
      first hit a b = rw (a, ← b) (here hit)

      later :
          {i j : ℕ} {f y : A} → suc j ≡ i → y ≡ f → Found (x ∷ fs) (suc j) y → Found (x ∷ fs) i f
      later a b r = rw (← a, ← b) r

  pub Found-test : {fs : List A} {i : ℕ} {f : A} → Found fs i f → test f ≡ true
  Found-test (here h) = h
  Found-test (there miss r) = Found-test r

  pub Found-index_where :
      {fs : List A} {i : ℕ} {f : A} → Found fs i f → index_where test fs ≡ some (i, f)
  unfolding index_where
  Found-index_where (here h) = rw h
  Found-index_where (there miss r) = rw (miss, Found-index_where r)

  pub set_self : {fs : List A} {i : ℕ} {f : A} → Found fs i f → set fs i f ≡ fs
  set_self (here h) = refl
  set_self (there {x} miss r) = ap (λ l. x ∷ l) (set_self r)

  pub Found-set :
      {fs : List A} {i : ℕ} {f : A} (f' : A)
      → Found fs i f
      → test f' ≡ true
      → Found (set fs i f') i f'
  Found-set f' (here h) h' = here h'
  Found-set f' (there miss r) h' = there miss (Found-set f' r h')

  pub Found-unique : {fs : List A} {i j : ℕ} {f g : A} → Found fs i f → Found fs j g → f ≡ g
  Found-unique (here h) (here k) = refl
  Found-unique (here h) (there miss r) = cc
  Found-unique (there miss r) (here h) = cc
  Found-unique (there miss r) (there _ q) = Found-unique r q

  pub often-set :
      {fs : List A} {i : ℕ} {f : A} (count : A → Bool) (f' : A)
      → Found fs i f
      → often count (set fs i f') + unit_of (count f) ≡ often count fs + unit_of (count f')
  often-set count f' (here h) = omega arith
  often-set count f' (there miss r) = omega (arith, often-set count f' r)

  pub All-set {κ} :
      {fs : List A} {i : ℕ} {f : A} (P : A → Type κ) (f' : A)
      → Found fs i f
      → All P fs
      → P f'
      → All P (set fs i f')
  All-set P f' (here h) all p = (p, all.1)
  All-set P f' (there miss r) all p = (all.0, All-set P f' r all.1 p)

  pub All-found {κ} : {fs : List A} {i : ℕ} {f : A} (P : A → Type κ) → Found fs i f → All P fs → P f
  All-found P (here h) all = all.0
  All-found P (there miss r) all = All-found P r all.1

  pub often-zero : (fs : List A) → is_some (index_where test fs) ≡ false → often test fs ≡ 0
  unfolding index_where
  often-zero [] h = refl
  often-zero (x ∷ fs) h = ground (arith, often-zero fs)

-- The second list has the elements of the first one, changed, in their places.
abbrev pub Pairwise : {A : Type 0} → (A → A → Type 0) → List A → List A → Type 0
Pairwise R [] [] = Unit
Pairwise R (x ∷ xs) (y ∷ ys) = R x y × Pairwise R xs ys
Pairwise R [] (y ∷ ys) = ⊥
Pairwise R (x ∷ xs) [] = ⊥

module _ {A : Type 0} (R : A → A → Type 0) (same : (f : A) → R f f) where
  pub Pairwise-refl : (fs : List A) → Pairwise R fs fs
  Pairwise-refl [] = tt
  Pairwise-refl (x ∷ fs) = (same x, Pairwise-refl fs)

  pub Pairwise-set :
      {test : A → Bool} {fs : List A} {i : ℕ} {f : A} (f' : A)
      → Found test fs i f
      → R f f'
      → Pairwise R fs (set fs i f')
  Pairwise-set f' (here {f} {fs} h) r = (r, Pairwise-refl fs)
  Pairwise-set f' (there {x} miss g) r = (same x, Pairwise-set f' g r)
