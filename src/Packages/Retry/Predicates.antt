-- ===== src/Packages/Retry/Predicates.antt =====
-- packages/go/retry/predicate.go, and the errors of errors.go. A function that may be nil is an
-- `Option`; an error that may be nil is an `Option` of the operation's errors.
pub mod Combined
use careeria.Base.{
  Bool, true, false, not, ◌&&◌, Option, none, some, List, [], ◌∷◌, if◌then◌else◌, is_some,
}

module _ {ℓ} {T E : Type ℓ} where
  unfoldable pub on_error : T → Option E → Bool
  on_error result err = is_some err

  unfoldable pub on_result : Option (T → Bool) → T → Option E → Bool
  on_result none result err = false
  on_result (some fn) result err = not (is_some err) && fn result

  unfoldable pub never : T → Option E → Bool
  never result err = false

  unfoldable pub any : List (Option (T → Option E → Bool)) → T → Option E → Bool
  any [] result err = false
  any (none ∷ rules) result err = any rules result err
  any (some rule ∷ rules) result err =
      let rest = any rules result err in if rule result err then true else rest

  -- The loop of `All`, with `matched`.
  unfoldable pub all_from : Bool → List (Option (T → Option E → Bool)) → T → Option E → Bool
  all_from matched [] result err = matched
  all_from matched (none ∷ rules) result err = all_from matched rules result err
  all_from matched (some rule ∷ rules) result err =
      let rest = all_from true rules result err in if not (rule result err) then false else rest

  unfoldable pub all : List (Option (T → Option E → Bool)) → T → Option E → Bool
  unfolding all_from
  all rules result err = all_from false rules result err
