-- ===== src/Domain/Tests.antt =====
-- The shared helpers at concrete values.
use careeria.Base.{ℕ, Option, some, List, [], ◌∷◌, nat_comparable}
use careeria.Base.Text.{Text, codes}

abbrev scopes : List ℕ
scopes = 3 ∷ 1 ∷ 3 ∷ []

abbrev padded : Option Text
padded = some (codes "  device ")
