-- ===== src/Identity/Authentication/Tests.antt =====
-- A password with a one-time code.
use careeria.Base.{◌≡◌, ◌↔◌, false, List, [], ◌∷◌, All, is_empty, Distinct, ok}
use careeria.Identity.Authentication.{
  Method, password, totp, multi_factor, knowledge, possession, method_comparable, resolve_level,
}
use careeria.Identity.Authentication.Levels.{shows, level_of, Known, resolve_level_iff}

abbrev methods : List Method
methods = password ∷ totp ∷ []

resolve_level_iff_example : (resolve_level methods ≡ ok multi_factor) ↔ (
    (is_empty methods ≡ false)
    × Distinct methods
    × All Known methods
    × (multi_factor ≡ level_of (shows knowledge methods) (shows possession methods)))
resolve_level_iff_example = resolve_level_iff methods multi_factor
