-- ===== src/Identity/AuthorizationGrant/Merging.antt =====
-- The scopes that `Extend` merges: services/identity/internal/domain/authorizationgrant.
use careeria.Base.{
  ◌≡◌, refl, false, none, List, [], ◌∷◌, ◌++◌, is_empty, contains, contains-append, nat_comparable,
  list_comparable, arith,
}
use careeria.Base.Text.{Text}
use careeria.Domain.Duplicates.{has_duplicates-Distinct}
use careeria.Identity.AuthorizationGrant.{has_empty_scope, validate_scopes, merge_scopes}
use careeria.Identity.AuthorizationGrant.Covering.{merge_scopes-contains, merge_scopes-Distinct}

has_empty_scope-contains : (scopes : List Text) → has_empty_scope scopes ≡ contains scopes []
unfolding has_empty_scope
has_empty_scope-contains [] = refl
has_empty_scope-contains ([] ∷ scopes) = ground arith
has_empty_scope-contains ((c ∷ s) ∷ scopes) = ground (arith, has_empty_scope-contains scopes)

merged_not_empty :
    (first second : List Text)
    → is_empty first ≡ false
    → is_empty (merge_scopes [] (first ++ second)) ≡ false
unfolding merge_scopes
merged_not_empty [] second h = absurd (cc h)
merged_not_empty (s ∷ first) second h = refl

pub merged_valid :
    (old scopes : List Text)
    → validate_scopes old ≡ none
    → validate_scopes scopes ≡ none
    → validate_scopes (merge_scopes [] (old ++ scopes)) ≡ none
unfolding validate_scopes
merged_valid old scopes h k =
    let none_empty : has_empty_scope (merge_scopes [] (old ++ scopes)) ≡ false =
      rw has_empty_scope-contains (
        ground (
          arith,
          merge_scopes-contains [] (old ++ scopes) [],
          contains-append old scopes [],
          has_empty_scope-contains old,
          has_empty_scope-contains scopes,
          h,
          k,
        )) in
    let once_each =
      (has_duplicates-Distinct (merge_scopes [] (old ++ scopes))).1
        (merge_scopes-Distinct [] (old ++ scopes)) in
    ground (arith, merged_not_empty old scopes (ground (arith, h)), once_each, none_empty)
