-- ===== src/Base/Guards.antt =====
-- Rules for methods that test and return early: to show a property of what the whole method
-- returns, show it of each early return and of the rest, which may assume that the tests passed.
use mathlib.Core.Path.{◌≡◌, refl}
use mathlib.Core.Bool.{Bool, true, false}
use mathlib.Core.Option.{Option, none, some}
use careeria.Base.Tests.{if◌then◌else◌}
use careeria.Base.Results.{Result, ok, err}

module _ {ℓ κ} {R : Type κ} (P : R → Type ℓ) where
  pub guarded :
      (test : Bool) (early rest : R)
      → P early
      → (test ≡ false → P rest)
      → P (if test then early else rest)
  guarded true early rest p k = p
  guarded false early rest p k = k refl

  pub branched :
      (test : Bool) (yes_part no_part : R)
      → (test ≡ true → P yes_part)
      → (test ≡ false → P no_part)
      → P (if test then yes_part else no_part)
  branched true a b p k = p refl
  branched false a b p k = k refl

  pub checked {ε} :
      {E : Type ε} (o : Option E) (early : E → R) (rest : R)
      → ((e : E) → P (early e))
      → (o ≡ none → P rest)
      → P (elim o [ some e ↦ early e | none ↦ rest ])
  checked (some e) early rest p k = p e
  checked none early rest p k = k refl

  pub settled {ε α} :
      {E : Type ε} {A : Type α} (r : Result E A) (early : E → R) (rest : A → R)
      → ((e : E) → P (early e))
      → ((a : A) → r ≡ ok a → P (rest a))
      → P (elim r [ err e ↦ early e | ok a ↦ rest a ])
  settled (err e) early rest p k = p e
  settled (ok a) early rest p k = k a refl

  pub found {α} :
      {A : Type α} (o : Option A) (missing : R) (rest : A → R)
      → P missing
      → ((a : A) → o ≡ some a → P (rest a))
      → P (elim o [ none ↦ missing | some a ↦ rest a ])
  found none missing rest p k = p
  found (some a) missing rest p k = k a refl

  -- The rules for a test that is known to pass.
  pub past :
      (test : Bool) (early rest : R) → test ≡ false → P rest → P (if test then early else rest)
  past true early rest h p = cc
  past false early rest h p = p

  pub passed {ε} :
      {E : Type ε} (o : Option E) (early : E → R) (rest : R)
      → o ≡ none
      → P rest
      → P (elim o [ some e ↦ early e | none ↦ rest ])
  passed (some e) early rest h p = cc
  passed none early rest h p = p

  pub settled_ok {ε α} :
      {E : Type ε} {A : Type α} (r : Result E A) (early : E → R) (rest : A → R) (a : A)
      → r ≡ ok a
      → P (rest a)
      → P (elim r [ err e ↦ early e | ok a ↦ rest a ])
  settled_ok r early rest a h p = rw h p

  pub examined {ε} :
      {E : Type ε} (o : Option E) (early : E → R) (rest : R)
      → ((e : E) → o ≡ some e → P (early e))
      → (o ≡ none → P rest)
      → P (elim o [ some e ↦ early e | none ↦ rest ])
  examined (some e) early rest p k = p e refl
  examined none early rest p k = k refl
