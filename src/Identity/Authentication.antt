-- ===== src/Identity/Authentication.antt =====
-- services/identity/internal/domain/authentication: policy.go and types.go. A string that is no
-- known method is `other_method`, one that is no known level `other_level`.
pub mod Levels
mod Tests
use careeria.Base.{
  ℕ, ◌≡◌, ◌≢◌, ◌↔◌, ◌⊎◌, refl, Bool, true, false, not, ◌&&◌, ◌||◌, Option, none, some, List, [],
  ◌∷◌, arith, is_empty, if◌then◌else◌, Result, ok, err, equal, Comparable, list_comparable,
  nat_comparable, contains, Distinct, equal_list_iff, Bool-cases, inl, inr,
}
use careeria.Base.Text.{Text}

pub data Method : Type 0 where
  password totp web_authn recovery_code : Method
  other_method : Text → Method

pub data Level : Type 0 where
  single_factor multi_factor : Level
  other_level : Text → Level

pub data Error : Type 0 where
  method_required method_duplicated unknown_method : Error

abbrev pub method_equal : Method → Method → Bool
method_equal password password = true
method_equal totp totp = true
method_equal web_authn web_authn = true
method_equal recovery_code recovery_code = true
method_equal (other_method a) (other_method b) = equal a b
method_equal _ _ = false

pub method_equal_iff : (a b : Method) → (method_equal a b ≡ true) ↔ (a ≡ b)
method_equal_iff (other_method a) (other_method b) =
    (λ h. cc ((equal_list_iff a b).0 h), λ h. (equal_list_iff a b).1 (cc h))
method_equal_iff a b = (λ h. ground arith, λ h. ground arith)

instance abbrev pub method_comparable : Comparable Method
method_comparable = record { equal = method_equal; equal_iff = method_equal_iff }

abbrev pub valid_method : Method → Bool
valid_method (other_method s) = false
valid_method _ = true

abbrev pub valid_level : Level → Bool
valid_level (other_level s) = false
valid_level _ = true

abbrev pub level_equal : Level → Level → Bool
level_equal single_factor single_factor = true
level_equal multi_factor multi_factor = true
level_equal (other_level a) (other_level b) = equal a b
level_equal _ _ = false

pub data FactorClass : Type 0 where
  knowledge possession : FactorClass

-- `none` is `false` beside the class.
abbrev pub factor_class : Method → Option FactorClass
factor_class password = some knowledge
factor_class totp = some possession
factor_class web_authn = some possession
factor_class recovery_code = some possession
factor_class (other_method s) = none

-- The set of the classes seen.
pub record Classes : Type 0 where
  pub has_knowledge : Bool
  pub has_possession : Bool

abbrev pub add_class : FactorClass → Classes → Classes
add_class knowledge cs = record cs { has_knowledge = true }
add_class possession cs = record cs { has_possession = true }

-- The loop of `ResolveLevel`, with the sets of the methods and the classes seen.
unfoldable pub resolve_from : List Method → Classes → List Method → Result Error Level
resolve_from seen classes [] =
    ok (if classes.has_knowledge && classes.has_possession then multi_factor else single_factor)
resolve_from seen classes (m ∷ ms) =
    if contains seen m then err method_duplicated else elim (factor_class m) [
      | none ↦ err unknown_method
      | some c ↦ resolve_from (m ∷ seen) (add_class c classes) ms
    ]

abbrev no_classes : Classes
no_classes = record { has_knowledge = false; has_possession = false }

unfoldable pub resolve_level : List Method → Result Error Level
unfolding resolve_from
resolve_level methods =
    if is_empty methods then err method_required else resolve_from [] no_classes methods
