-- ===== src/Identity/Mfa/Growth.antt =====
-- How the list of the factors changes through calls of the methods of
-- services/identity/internal/domain/mfa/mfa.go.
use careeria.Base.{ℕ, Option, List, [], ◌∷◌, ◌++◌, arith, set}
use careeria.Domain.{Time, Uuid}
use careeria.Identity.Mfa.Types.{Error}
use careeria.Identity.Mfa.Factors.{Factor, has_id}
use careeria.Identity.Mfa.Keeping.{Persists, Persists-refl, Behind-trans, last_step, sign_count}
use careeria.Base.Finding.{Found, here, there, Pairwise, Pairwise-refl, Pairwise-set}
use careeria.Identity.Mfa.Invariant.{Persists-Pairwise}
use careeria.Identity.Mfa.Outcomes.{Outcome, refuses, keeps, changes, promotes, enrols}
use careeria.Identity.Mfa.Calls.{Call, perform, perform-Outcome, run}
use careeria.Identity.Mfa.{Mfa}

Persists-trans : (f g h : Factor) → Persists f g → Persists g h → Persists f h
Persists-trans f g h a b = record {
  same_id = cc (a.same_id, b.same_id);
  same_key = cc (a.same_key, b.same_key);
  same_totp = cc (a.same_totp, b.same_totp);
  steps = Behind-trans (last_step f) (last_step g) (last_step h) a.steps b.steps;
  counts = Behind-trans (sign_count f) (sign_count g) (sign_count h) a.counts b.counts;
  confirmed = λ k. b.confirmed (a.confirmed k);
}

-- The second list starts with the factors of the first one, changed.
abbrev pub Grown : List Factor → List Factor → Type 0
Grown [] ys = Unit
Grown (x ∷ xs) [] = ⊥
Grown (x ∷ xs) (y ∷ ys) = Persists x y × Grown xs ys

Grown-Pairwise : (fs fs' : List Factor) → Pairwise Persists fs fs' → Grown fs fs'
Grown-Pairwise [] ys p = tt
Grown-Pairwise (x ∷ xs) [] p = p
Grown-Pairwise (x ∷ xs) (y ∷ ys) p = (p.0, Grown-Pairwise xs ys p.1)

Grown-append : (fs gs : List Factor) → Grown fs (fs ++ gs)
Grown-append [] gs = tt
Grown-append (x ∷ fs) gs = (Persists-refl x, Grown-append fs gs)

Grown-refl : (fs : List Factor) → Grown fs fs
Grown-refl fs = Grown-Pairwise fs fs (Pairwise-refl Persists Persists-refl fs)

Grown-trans : (fs gs hs : List Factor) → Grown fs gs → Grown gs hs → Grown fs hs
Grown-trans [] gs hs a b = tt
Grown-trans (x ∷ fs) [] hs a b = absurd a
Grown-trans (x ∷ fs) (y ∷ gs) [] a b = absurd b
Grown-trans (x ∷ fs) (y ∷ gs) (z ∷ hs) a b =
    (Persists-trans x y z a.0 b.0, Grown-trans fs gs hs a.1 b.1)

Outcome-Grown : (m : Mfa) (r : Mfa × Option Error) → Outcome m r → Grown m.factors r.0.factors
Outcome-Grown m _ refuses = Grown-refl m.factors
Outcome-Grown m _ keeps = Grown-refl m.factors
Outcome-Grown m _ (changes id {i} {f} {f'} found a) =
    Grown-Pairwise m.factors (set m.factors i f')
      (Pairwise-set Persists Persists-refl f' found a.persists)
Outcome-Grown m _ (promotes {fs} p) =
    Grown-Pairwise m.factors fs (Persists-Pairwise m.factors fs p.pairwise)
Outcome-Grown m _ (enrols {f} n) = Grown-append m.factors (f ∷ [])

pub run-Grown : (m : Mfa) (cs : List (Call × Time)) → Grown m.factors (run m cs).factors
unfolding run
run-Grown m [] = Grown-refl m.factors
run-Grown m ((c, now) ∷ cs) =
    let m' = (perform m c now).0 in
    Grown-trans m.factors m'.factors (run m' cs).factors
      (Outcome-Grown m (perform m c now) (perform-Outcome m c now)) (run-Grown m' cs)

-- A factor that stands at its place in a list that has grown.
pub record Later (id : Uuid) (fs : List Factor) (i : ℕ) (f : Factor) : Type 0 where
  pub factor : Factor
  pub found : Found (has_id id) fs i factor
  pub persists : Persists f factor

pub Found-Later :
    {id : Uuid} {fs : List Factor} {i : ℕ} {f : Factor} (fs' : List Factor)
    → Found (has_id id) fs i f
    → Grown fs fs'
    → Later id fs' i f
Found-Later [] (here h) g = absurd g
Found-Later (y ∷ ys) (here {f} h) g = record {
  factor = y;
  found = here (ground (arith, g.0.same_id));
  persists = g.0;
}
Found-Later [] (there miss r) g = absurd g
Found-Later (y ∷ ys) (there {x} miss r) g =
    let deeper = Found-Later ys r g.1 in
    record {
      factor = deeper.factor;
      found = there (ground (arith, g.0.same_id)) deeper.found;
      persists = deeper.persists;
    }
