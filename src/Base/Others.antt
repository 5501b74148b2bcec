-- ===== src/Base/Others.antt =====
-- The loop that calls a method of every element of a list but the one at an index, up to the first
-- error.
use careeria.Base.{
  ℕ, zero, suc, ◌+◌, ◌<◌, ◌≡◌, refl, Bool, true, false, Option, none, some, List, [], ◌∷◌, ◌==◌,
  arith, set, All, if◌then◌else◌,
}
use careeria.Base.Guards.{branched, past, passed}
use careeria.Base.Finding.{often, Found, here, there, Pairwise}

module _ {A E : Type 0} where
  unfoldable pub each_other : (A → A × Option E) → List A → ℕ → ℕ → List A × Option E
  each_other method [] position index = ([], none)
  each_other method (x ∷ xs) position index =
      let (xs', rest) = each_other method xs (suc position) index in
      if position == index
      then (x ∷ xs', rest)
      else let (x', failure) = method x in
        elim failure [ some e ↦ (x' ∷ xs, some e) | none ↦ (x' ∷ xs', rest) ]

-- The method takes its element: it reports no error, relates the element to the one that it
-- leaves, and leaves it failing the test.
pub record Takes {A E : Type 0} (R : A → A → Type 0) (test : A → Bool) (x : A) (r : A × Option E)
    : Type 0 where
  pub accepted : r.1 ≡ none
  pub related : R x r.0
  pub off : test r.0 ≡ false

-- The loop went through, and as many elements as given pass the test.
pub record Spread {A E : Type 0} (R : A → A → Type 0) (test : A → Bool) (xs : List A) (n : ℕ)
    (r : List A × Option E) : Type 0 where
  pub accepted : r.1 ≡ none
  pub pairwise : Pairwise R xs r.0
  pub counted : often test r.0 ≡ n

module _ {A E : Type 0} (method : A → A × Option E) (R : A → A → Type 0) (test : A → Bool)
    (Ready : A → Type 0) (takes : (x : A) → Ready x → Takes R test x (method x)) where
  -- An element that is not the one at the index, and the rest of the loop.
  each_other-cons :
      (x : A) (xs ys : List A) (position index n : ℕ)
      → (position == index) ≡ false
      → Ready x
      → Spread R test ys n (each_other method xs (suc position) index)
      → Spread R test (x ∷ ys) n (each_other method (x ∷ xs) position index)
  unfolding each_other
  each_other-cons x xs ys position index n other ready rest =
      let P = Spread {E = E} R test (x ∷ ys) n in
      let t = takes x ready in
      past P (position == index) _ _ other (
        passed P ((method x).1) _ _ t.accepted (record {
          accepted = rest.accepted;
          pairwise = (t.related, rest.pairwise);
          counted = rw t.off (omega (arith, rest.counted));
        }))

  each_other-beyond :
      (xs : List A) (position index : ℕ)
      → index < position
      → All Ready xs
      → Spread R test xs 0 (each_other method xs position index)
  each_other-beyond [] position index far ready =
      unfold each_other in record { accepted = refl; pairwise = tt; counted = refl }
  each_other-beyond (x ∷ xs) position index far ready =
      each_other-cons x xs xs position index 0 (ground arith) ready.0
        (each_other-beyond xs (suc position) index (omega arith) ready.1)

  -- Where the element at the index is one that passes the test, it is the only one afterwards.
  pub each_other-Spread :
      {find : A → Bool} {xs : List A} {i : ℕ} {x : A} (x' : A) (position : ℕ)
      → Found find xs i x
      → All Ready xs
      → R x x'
      → test x' ≡ true
      → Spread R test xs 1 (each_other method (set xs i x') position (i + position))
  each_other-Spread x' position (here {f = x} {fs = xs} h) ready related on =
      let P = Spread {E = E} R test (x ∷ xs) 1 in
      let rest = each_other-beyond xs (suc position) (zero + position) (omega arith) ready.1 in
      unfold each_other in
      branched P (position == zero + position) _ _
        (λ same. record {
          accepted = rest.accepted;
          pairwise = (related, rest.pairwise);
          counted = rw on (omega (arith, rest.counted));
        })
        (λ other. absurd (ground arith))
  each_other-Spread x' position (there {x} {f} {fs = xs} {i} miss r) ready related on =
      let e : i + suc position ≡ suc i + position = omega arith in
      each_other-cons x (set xs i x') xs position (suc i + position) 1 (ground arith) ready.0
        (rw (← e) (each_other-Spread x' (suc position) r ready.1 related on))

  -- The loop leaves the element at the index where it is found.
  pub each_other-Found :
      (find : A → Bool)
      → ((x y : A) → R x y → find x ≡ false → find y ≡ false)
      → {xs : List A} {i : ℕ} {x : A} (x' : A) (position : ℕ) → Found find xs i x
      → All Ready xs
      → find x' ≡ true
      → Found find (each_other method (set xs i x') position (i + position)).0 i x'
  unfolding each_other
  each_other-Found find keeps x' position (here {f = x} {fs = xs} h) ready hit =
      let P = λ (r : List A × Option E). Found find r.0 zero x' in
      branched P (position == zero + position) _ _ (λ same. here hit)
        (λ other. absurd (ground arith))
  each_other-Found find keeps x' position (there {x} {f} {fs = xs} {i} miss r) ready hit =
      let P = λ (r : List A × Option E). Found find r.0 (suc i) x' in
      let t = takes x ready.0 in
      let e : i + suc position ≡ suc i + position = omega arith in
      let rest = each_other-Found find keeps x' (suc position) r ready.1 hit in
      past P (position == suc i + position) _ _ (ground arith) (
        passed P ((method x).1) _ _ t.accepted
          (there (keeps x (method x).0 t.related miss) (rw (← e) rest)))
