-- ===== src/Identity/Authentication/Levels.antt =====
-- `ResolveLevel` of services/identity/internal/domain/authentication/policy.go.
use careeria.Base.{
  ◌≡◌, ◌↔◌, refl, Bool, true, false, ◌&&◌, ◌||◌, List, [], ◌∷◌, arith, All, is_empty, if◌then◌else◌,
  ok, Distinct,
}
use careeria.Domain.{has_duplicates_from, has_duplicates}
use careeria.Domain.Duplicates.{has_duplicates-Distinct}
use careeria.Identity.Authentication.{
  Method, password, totp, web_authn, recovery_code, other_method, Level, single_factor,
  multi_factor, FactorClass, knowledge, possession, valid_method, method_comparable, Classes,
  add_class, resolve_from, resolve_level,
}

abbrev pub has_class : FactorClass → Method → Bool
has_class knowledge password = true
has_class possession totp = true
has_class possession web_authn = true
has_class possession recovery_code = true
has_class _ _ = false

-- Some method of the list has the class.
abbrev pub shows : FactorClass → List Method → Bool
shows c [] = false
shows c (m ∷ ms) = has_class c m || shows c ms

abbrev pub level_of : Bool → Bool → Level
level_of k p = if k && p then multi_factor else single_factor

abbrev pub Known : Method → Type 0
Known m = valid_method m ≡ true

module _ (level : Level) where
  Resolved : List Method → Classes → List Method → Type 0
  Resolved seen cs ms =
      (has_duplicates_from seen ms ≡ false)
      × All Known ms
      × (level
          ≡ level_of (cs.has_knowledge || shows knowledge ms)
              (cs.has_possession || shows possession ms))

  resolve_from-Resolved :
      (seen : List Method) (cs : Classes) (ms : List Method)
      → (resolve_from seen cs ms ≡ ok level) ↔ Resolved seen cs ms
  unfolding resolve_from has_duplicates_from Resolved
  resolve_from-Resolved seen cs [] = (λ h. ground arith, λ h. ground arith)
  resolve_from-Resolved seen cs (password ∷ ms) =
      let deeper = resolve_from-Resolved (password ∷ seen) (add_class knowledge cs) ms in
      (λ h. ground (arith, deeper.0), λ h. ground (arith, deeper.1))
  resolve_from-Resolved seen cs (totp ∷ ms) =
      let deeper = resolve_from-Resolved (totp ∷ seen) (add_class possession cs) ms in
      (λ h. ground (arith, deeper.0), λ h. ground (arith, deeper.1))
  resolve_from-Resolved seen cs (web_authn ∷ ms) =
      let deeper = resolve_from-Resolved (web_authn ∷ seen) (add_class possession cs) ms in
      (λ h. ground (arith, deeper.0), λ h. ground (arith, deeper.1))
  resolve_from-Resolved seen cs (recovery_code ∷ ms) =
      let deeper = resolve_from-Resolved (recovery_code ∷ seen) (add_class possession cs) ms in
      (λ h. ground (arith, deeper.0), λ h. ground (arith, deeper.1))
  resolve_from-Resolved seen cs (other_method s ∷ ms) = (λ h. ground arith, λ h. ground arith)

-- `ResolveLevel` succeeds exactly on a list of known methods that is not empty and names none
-- twice; its level is then multi-factor where the list has a knowledge and a possession factor, and
-- single-factor otherwise.
pub resolve_level_iff :
    (methods : List Method) (level : Level)
    → (resolve_level methods ≡ ok level) ↔ (
        (is_empty methods ≡ false)
        × Distinct methods
        × All Known methods
        × (level ≡ level_of (shows knowledge methods) (shows possession methods)))
unfolding resolve_level has_duplicates Resolved
resolve_level_iff [] level = (λ h. ground arith, λ h. ground arith)
resolve_level_iff (m ∷ ms) level =
    let walk =
      resolve_from-Resolved level [] (record { has_knowledge = false; has_possession = false })
        (m ∷ ms) in
    let apart = has_duplicates-Distinct (m ∷ ms) in
    (λ h. let r = walk.0 h in (refl, apart.0 r.0, r.1, r.2), λ h. walk.1 (apart.1 h.1, h.2, h.3))
