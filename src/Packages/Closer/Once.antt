-- ===== src/Packages/Closer/Once.antt =====
-- Any calls of `Add` and `Close`, and how often each closer is closed: packages/go/closer/closer.go.
use careeria.Base.{
  ◌≡◌, refl, ap, ℕ, ◌+◌, Bool, true, false, Option, none, some, List, [], ◌∷◌, ◌++◌, if◌then◌else◌,
  ◌==◌, arith,
}
use careeria.Base.Guards.{branched}
use careeria.Packages.Closer.{Closer, new, add, close_all, close}

pub data Call : Type 0 where
  adds : Option ℕ → Call
  closes : Call

-- How often a closer stands in a list.
abbrev pub often : List ℕ → ℕ → ℕ
often [] closer = 0
often (first ∷ others) closer = often others closer + (if first == closer then 1 else 0)

often-append :
    (before after : List ℕ) (closer : ℕ)
    → often (before ++ after) closer ≡ often before closer + often after closer
often-append [] after closer = omega arith
often-append (first ∷ others) after closer = omega (arith, often-append others after closer)

-- The closers that are handed over in a sequence of calls.
abbrev pub added : List Call → List ℕ
added [] = []
added (adds none ∷ cs) = added cs
added (adds (some closer) ∷ cs) = closer ∷ added cs
added (closes ∷ cs) = added cs

abbrev pub has_close : List Call → Bool
has_close [] = false
has_close (closes ∷ cs) = true
has_close (adds closer ∷ cs) = has_close cs

module _ {ℓ} {E : Type ℓ} (fails : ℕ → Option E) where
  unfoldable pub run : Closer → List Call → Closer
  run c [] = c
  run c (adds closer ∷ cs) = run (add c closer) cs
  run c (closes ∷ cs) = run (close fails c).0 cs

  close_all-often : (a : ℕ) (xs : List ℕ) → often (close_all fails xs).0 a ≡ often xs a
  unfolding close_all
  close_all-often a [] = refl
  close_all-often a (x ∷ xs) =
      omega (arith, often-append (close_all fails xs).0 (x ∷ []) a, close_all-often a xs)

  -- The closers that are held and those that were closed, together.
  abbrev total : ℕ → Closer → ℕ
  total a c = often c.log a + often c.closers a

  add-total :
      (a : ℕ) (c : Closer) (closer : ℕ)
      → total a (add c (some closer)) ≡ total a c + often (closer ∷ []) a
  unfolding add
  add-total a c closer =
      branched (λ d. total a d ≡ total a c + often (closer ∷ []) a) c.closed _ _
        (λ h. omega (arith, often-append c.log (closer ∷ []) a))
        (λ h. omega (arith, often-append c.closers (closer ∷ []) a))

  close-total : (a : ℕ) (c : Closer) → total a (close fails c).0 ≡ total a c
  unfolding close
  close-total a c =
      branched {R = Closer × List E} (λ r. total a r.0 ≡ total a c) c.closed _ _ (λ h. refl)
        (λ h.
          omega (
            arith,
            often-append c.log (close_all fails c.closers).0 a,
            close_all-often a c.closers,
          ))

  run-total :
      (a : ℕ) (c : Closer) (cs : List Call) → total a (run c cs) ≡ total a c + often (added cs) a
  unfolding run add
  run-total a c [] = omega arith
  run-total a c (adds none ∷ cs) = run-total a c cs
  run-total a c (adds (some closer) ∷ cs) =
      omega (arith, run-total a (add c (some closer)) cs, add-total a c closer)
  run-total a c (closes ∷ cs) = omega (arith, run-total a (close fails c).0 cs, close-total a c)

  -- A closer that is closed holds nothing.
  abbrev Empty : Closer → Type 0
  Empty c = (c.closed ≡ true) × (c.closers ≡ [])

  add-Empty : (c : Closer) (closer : Option ℕ) → Empty c → Empty (add c closer)
  unfolding add
  add-Empty c none e = e
  add-Empty c (some closer) e = branched Empty c.closed _ _ (λ h. e) (λ h. absurd (differ h e.0))
    where
      differ : c.closed ≡ false → c.closed ≡ true → ⊥
      differ h k = cc (h, k)

  close-closed : (c : Closer) → (c.closed ≡ true → c.closers ≡ []) → Empty (close fails c).0
  unfolding close
  close-closed c held =
      branched {R = Closer × List E} (λ r. Empty r.0) c.closed _ _ (λ h. (h, held h))
        (λ h. (refl, refl))

  run-Empty : (c : Closer) (cs : List Call) → Empty c → Empty (run c cs)
  unfolding run
  run-Empty c [] e = e
  run-Empty c (adds closer ∷ cs) e = run-Empty (add c closer) cs (add-Empty c closer e)
  run-Empty c (closes ∷ cs) e = run-Empty (close fails c).0 cs (close-closed c (λ h. e.1))

  add_opened : (c : Closer) (closer : Option ℕ) → c.closed ≡ false → (add c closer).closed ≡ false
  unfolding add
  add_opened c none opened = opened
  add_opened c (some closer) opened =
      branched {R = Closer} (λ d. d.closed ≡ false) c.closed _ _ (λ h. opened) (λ h. opened)

  open_close :
      (c : Closer) (cs : List Call) → c.closed ≡ false → has_close cs ≡ true → Empty (run c cs)
  unfolding run
  open_close c [] opened h = cc h
  open_close c (adds closer ∷ cs) opened h =
      open_close (add c closer) cs (add_opened c closer opened) h
  open_close c (closes ∷ cs) opened h =
      run-Empty (close fails c).0 cs (close-closed c (λ k. absurd (cc (k, opened))))

  -- Once `Close` was called, whatever is added before or after it is closed, each closer exactly as
  -- often as it was added, and none is held back, whatever errors the closers report.
  pub run-often :
      (cs : List Call) (a : ℕ)
      → has_close cs ≡ true
      → (often (run new cs).log a ≡ often (added cs) a) × ((run new cs).closers ≡ [])
  run-often cs a called =
      let e = open_close new cs refl called in
      let all : total a (run new cs) ≡ often (added cs) a = omega (arith, run-total a new cs) in
      (omega (arith, all, ap (λ l. often l a) e.1), e.1)
