-- ===== src/Packages/Outbox/Holding.antt =====
-- The entries that a round of the worker of packages/go/outbox/worker.go has dealt with.
use careeria.Base.{
  ◌≡◌, ◌⊎◌, refl, true, none, some, List, [], ◌∷◌, ◌++◌, is_empty, inl, inr, All, All-mono,
}
use careeria.Packages.Outbox.{
  Entry, Event, claimed, sent, failure_marked, publication_marked, waited, Log, Round, returned,
  finished,
}

module _ {M : Type 0} where
  abbrev pub IsMember : List (Entry M) → Entry M → Type 0
  IsMember [] e = ⊥
  IsMember (x ∷ xs) e = (x ≡ e) ⊎ IsMember xs e

  pub IsMember-append :
      (xs ys : List (Entry M)) (e : Entry M) → IsMember xs e → IsMember (xs ++ ys) e
  IsMember-append [] ys e m = absurd m
  IsMember-append (x ∷ xs) ys e (inl h) = inl h
  IsMember-append (x ∷ xs) ys e (inr h) = inr (IsMember-append xs ys e h)

  pub IsMember-last : (xs : List (Entry M)) (e : Entry M) → IsMember (xs ++ e ∷ []) e
  IsMember-last [] e = inl refl
  IsMember-last (x ∷ xs) e = inr (IsMember-last xs e)

  -- The entries in the order in which the loop has met them, the last one first.
  abbrev pub pushed : List (Entry M) → List (Entry M) → List (Entry M)
  pushed [] es = es
  pushed (x ∷ xs) es = pushed xs (x ∷ es)

  pub All-pushed :
      (P : Entry M → Type 0) (xs es : List (Entry M)) → All P (pushed xs es) → All P xs × All P es
  All-pushed P [] es h = (tt, h)
  All-pushed P (x ∷ xs) es h =
      let (rest, done) = All-pushed P xs (x ∷ es) h in ((done.0, rest), done.1)

module _ {M E : Type 0} where
  -- The log has a call that reported no error and marked the entry: as published or as failed.
  abbrev pub IsFinalized : Log M E → Entry M → Type 0
  IsFinalized [] e = ⊥
  IsFinalized (failure_marked x f none ∷ log) e = (x ≡ e) ⊎ IsFinalized log e
  IsFinalized (failure_marked x f (some m) ∷ log) e = IsFinalized log e
  IsFinalized (publication_marked xs none ∷ log) e = IsMember xs e ⊎ IsFinalized log e
  IsFinalized (publication_marked xs (some m) ∷ log) e = IsFinalized log e
  IsFinalized (claimed r ∷ log) e = IsFinalized log e
  IsFinalized (sent x r ∷ log) e = IsFinalized log e
  IsFinalized (waited b ∷ log) e = IsFinalized log e

  -- Within the loop: the entry waits to be marked as published, or is marked as failed.
  abbrev pub Held : List (Entry M) → Log M E → Entry M → Type 0
  Held published fresh e = IsMember published e ⊎ IsFinalized fresh e

  -- The loop, begun at a log, holds the entries, if its flag says that all were finalized.
  abbrev pub Carries : Log M E → List (Entry M) → Round M E → Type 0
  Carries begun es (returned log) = Unit
  Carries begun es (finished log published finalized) =
      finalized ≡ true → (fresh : Log M E) × (log ≡ fresh ++ begun) × All (Held published fresh) es

  pub Held-event :
      (published : List (Entry M)) (fresh : Log M E) (event : Event M E) (es : List (Entry M))
      → ((e : Entry M) → IsFinalized fresh e → IsFinalized (event ∷ fresh) e)
      → All (Held published fresh) es
      → All (Held published (event ∷ fresh)) es
  Held-event published fresh event es keep h =
      All-mono (Held published fresh) (Held published (event ∷ fresh)) es (λ e. go e) h
    where
      go : (e : Entry M) → Held published fresh e → Held published (event ∷ fresh) e
      go e (inl m) = inl m
      go e (inr f) = inr (keep e f)

  pub Held-published :
      (published : List (Entry M)) (fresh : Log M E) (e x : Entry M)
      → Held published fresh x
      → Held (published ++ e ∷ []) (sent e none ∷ fresh) x
  Held-published published fresh e x (inl m) = inl (IsMember-append published (e ∷ []) x m)
  Held-published published fresh e x (inr f) = inr f

  pub Held-empty :
      (published : List (Entry M)) (fresh : Log M E) (e : Entry M)
      → is_empty published ≡ true
      → Held published fresh e
      → IsFinalized fresh e
  Held-empty [] fresh e h (inl m) = absurd m
  Held-empty [] fresh e h (inr f) = f
  Held-empty (x ∷ xs) fresh e h held = cc
