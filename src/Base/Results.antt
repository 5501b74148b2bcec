-- ===== src/Base/Results.antt =====
-- Go's `(T, error)`: a value or an error of the component's own type. A method that changes its
-- receiver returns the receiver that it leaves, with the error where there is one; `>>=` goes on
-- from a method that reported none.
use mathlib.Core.Option.{Option, none, some}

pub data Result {ℓ κ} (E : Type ℓ) (A : Type κ) : Type (ℓ ⊔ κ) where
  ok : A → Result E A
  err : E → Result E A

infixl 5 ◌>>=◌
abbrev pub ◌>>=◌ {ℓ κ} :
    {S : Type ℓ} {E : Type κ} → S × Option E → (S → S × Option E) → S × Option E
(s, none) >>= f = f s
(s, some e) >>= f = (s, some e)
