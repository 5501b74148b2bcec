-- ===== src/Packages/Closer/Tests.antt =====
-- Two closers before `Close`, and one after it.
use careeria.Base.{◌≡◌, refl, ℕ, Option, none, some, List, [], ◌∷◌}
use careeria.Packages.Closer.{new, add, close}
use careeria.Packages.Closer.Once.{Call, adds, closes, added, often, run, run-often}

abbrev calls : List Call
calls = adds (some 1) ∷ adds none ∷ adds (some 2) ∷ closes ∷ adds (some 3) ∷ closes ∷ []

abbrev never_fails : ℕ → Option ℕ
never_fails closer = none

calls_log : (run never_fails new calls).log ≡ 2 ∷ 1 ∷ 3 ∷ []
unfolding run add close
calls_log = refl

run-often_example :
    (often (run never_fails new calls).log 2 ≡ often (added calls) 2)
    × ((run never_fails new calls).closers ≡ [])
run-often_example = run-often never_fails calls 2 refl
