-- ===== src/Packages/Retry/Predicates/Combined.antt =====
-- What `Any` and `All` say together: packages/go/retry/predicate.go.
use careeria.Base.{
  ◌≡◌, Bool, true, false, not, ◌&&◌, ◌||◌, Option, none, some, List, [], ◌∷◌, map, arith,
}
use careeria.Packages.Retry.Predicates.{any, all, all_from}

-- The rules that are not nil.
abbrev pub present {ℓ} : {A : Type ℓ} → List (Option A) → List A
present [] = []
present (none ∷ rules) = present rules
present (some rule ∷ rules) = rule ∷ present rules

-- The rule that says the opposite.
abbrev pub refused {ℓ} :
    {T E : Type ℓ} → Option (T → Option E → Bool) → Option (T → Option E → Bool)
refused none = none
refused (some rule) = some (λ result err. not (rule result err))

module _ {ℓ} {T E : Type ℓ} (result : T) (err : Option E) where
  all_from-any :
      (matched : Bool) (rules : List (Option (T → Option E → Bool)))
      → all_from matched rules result err ≡ (
          (matched || not (elim (present rules) [ [] ↦ true | _ ↦ false ]))
          && not (any (map refused rules) result err))
  unfolding all_from any
  all_from-any matched [] = ground arith
  all_from-any matched (none ∷ rules) = all_from-any matched rules
  all_from-any matched (some rule ∷ rules) = ground (arith, all_from-any true rules)

  -- `All` holds where there is a rule and no rule refuses; nil rules count for nothing.
  all-any :
      (rules : List (Option (T → Option E → Bool)))
      → all rules result err ≡ (
          not (elim (present rules) [ [] ↦ true | _ ↦ false ])
          && not (any (map refused rules) result err))
  unfolding all
  all-any rules = all_from-any false rules
