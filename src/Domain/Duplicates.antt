-- ===== src/Domain/Duplicates.antt =====
-- `HasDuplicates` of services/identity/internal/domain/helpers.go against pairwise difference.
use careeria.Base.{
  ◌≡◌, refl, false, List, [], ◌∷◌, ◌↔◌, arith, All, Comparable, contains, Distinct, Bool-cases,
  equal_comm, inl, inr,
}
use careeria.Domain.{has_duplicates_from, has_duplicates}

module _ {ℓ} {A : Type ℓ} ⦃c : Comparable A⦄ where
  abbrev Unseen : List A → List A → Type 0
  Unseen seen = All (λ x. contains seen x ≡ false)

  Unseen-cons :
      (v : A) (seen values : List A)
      → contains values v ≡ false
      → Unseen seen values
      → Unseen (v ∷ seen) values
  Unseen-cons v seen [] h u = tt
  Unseen-cons v seen (x ∷ xs) h u =
      (ground (arith, equal_comm v x), Unseen-cons v seen xs (ground arith) u.1)

  Unseen-uncons :
      (v : A) (seen values : List A)
      → Unseen (v ∷ seen) values
      → (contains values v ≡ false) × Unseen seen values
  Unseen-uncons v seen [] u = (refl, tt)
  Unseen-uncons v seen (x ∷ xs) u =
      let (absent, rest) = Unseen-uncons v seen xs u.1 in
      (ground (arith, equal_comm v x), (ground arith, rest))

  from-Distinct :
      (seen values : List A)
      → has_duplicates_from seen values ≡ false
      → Distinct values × Unseen seen values
  unfolding has_duplicates_from
  from-Distinct seen [] h = (tt, tt)
  from-Distinct seen (v ∷ vs) h = elim (Bool-cases (contains seen v)) [
    | inl old ↦ ground arith
    | inr new ↦
        let (d, u) = from-Distinct (v ∷ seen) vs (ground arith) in
        let (absent, rest) = Unseen-uncons v seen vs u in ((absent, d), (new, rest))
  ]

  Distinct-from :
      (seen values : List A)
      → Distinct values
      → Unseen seen values
      → has_duplicates_from seen values ≡ false
  unfolding has_duplicates_from
  Distinct-from seen [] d u = refl
  Distinct-from seen (v ∷ vs) d u =
      ground (arith, Distinct-from (v ∷ seen) vs d.1 (Unseen-cons v seen vs d.0 u.1))

  Unseen-nil : (values : List A) → Unseen [] values
  Unseen-nil [] = tt
  Unseen-nil (v ∷ vs) = (refl, Unseen-nil vs)

  -- The one pass over the list with a set of the values seen reports no duplicate exactly when no
  -- entry of the list equals a later one.
  pub has_duplicates-Distinct :
      (values : List A) → (has_duplicates values ≡ false) ↔ Distinct values
  unfolding has_duplicates
  has_duplicates-Distinct values =
      (λ h. (from-Distinct [] values h).0, λ d. Distinct-from [] values d (Unseen-nil values))
