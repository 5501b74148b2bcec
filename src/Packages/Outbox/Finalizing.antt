-- ===== src/Packages/Outbox/Finalizing.antt =====
-- What a round of the worker of packages/go/outbox/worker.go that reports a full batch has done.
use careeria.Base.{
  ◌≡◌, refl, Bool, true, false, Option, none, some, List, [], ◌∷◌, ◌++◌, is_empty, length, Result,
  ok, err, inl, inr, All, All-mono, ap, arith,
}
use careeria.Base.Guards.{guarded, branched}
use careeria.Base.Int.{ℤ, pos, negsuc, int_equal}
use careeria.Packages.Outbox.Holding.{
  IsMember-last, IsFinalized, Held, Carries, pushed, All-pushed, Held-event, Held-published,
  Held-empty,
}
use careeria.Packages.Outbox.{
  Config, Entry, claimed, sent, failure_marked, publication_marked, Log, World, Round, returned,
  finished, failure_result, publish_result, publish_one, publish_each, is_full, published_result,
  conclude, process_claimed, process,
}

int_equal-eq : (a b : ℤ) → int_equal a b ≡ true → a ≡ b
int_equal-eq (pos a) (pos b) h = ground arith
int_equal-eq (pos a) (negsuc b) h = absurd (ground arith)
int_equal-eq (negsuc a) (pos b) h = absurd (ground arith)
int_equal-eq (negsuc a) (negsuc b) h = ground arith

module _ {M E : Type 0} (w : World M E) (c : Config) (begun : Log M E) where
  publish_one-Carries :
      (e : Entry M) (es : List (Entry M)) (log : Log M E) (published : List (Entry M))
      (finalized : Bool)
      → Carries begun es (finished log published finalized)
      → Carries begun (e ∷ es) (publish_one w c e log published finalized)
  unfolding publish_one
  publish_one-Carries e es log published finalized h =
      guarded P (w.cancelled log) _ _ tt (λ on. result (w.publish log e.message))
    where
      P : Round M E → Type 0
      P = Carries begun (e ∷ es)

      failed :
          (f : E) (r : Option E)
          → P (failure_result w c e f (sent e (some f) ∷ log) published finalized r)
      failed f none = λ yes_all.
          let (fresh, same, held) = h yes_all in
          (
            failure_marked e f none ∷ sent e (some f) ∷ fresh,
            ap (λ l. failure_marked e f none ∷ sent e (some f) ∷ l) same,
            (
              inr (inl refl),
              Held-event published (sent e (some f) ∷ fresh) (failure_marked e f none) es
                  (λ x k. inr k) (Held-event published fresh (sent e (some f)) es (λ x k. k) held),
            ),
          )
      failed f (some m) =
          guarded P (w.cancelled (failure_marked e f (some m) ∷ sent e (some f) ∷ log)) _ _ tt
            (λ on yes_all. cc)

      result : (r : Option E) → P (publish_result w c e log published finalized r)
      result none = λ yes_all.
          let (fresh, same, held) = h yes_all in
          (
            sent e none ∷ fresh,
            ap (λ l. sent e none ∷ l) same,
            (
              inl (IsMember-last published e),
              All-mono (Held published fresh) (Held (published ++ e ∷ []) (sent e none ∷ fresh)) es
                  (λ x k. Held-published published fresh e x k) held,
            ),
          )
      result (some f) =
          guarded P (w.cancelled (sent e (some f) ∷ log)) _ _ tt
            (λ on. failed f (w.mark_failed (sent e (some f) ∷ log) e f))

  publish_each-Carries :
      (xs es : List (Entry M)) (log : Log M E) (published : List (Entry M)) (finalized : Bool)
      → Carries begun es (finished log published finalized)
      → Carries begun (pushed xs es) (publish_each w c xs log published finalized)
  unfolding publish_each
  publish_each-Carries [] es log published finalized h = h
  publish_each-Carries (x ∷ xs) es log published finalized h =
      go (publish_one w c x log published finalized)
        (publish_one-Carries x es log published finalized h) (publish_each-Carries xs (x ∷ es))
    where
      go :
          (r : Round M E)
          → Carries begun (x ∷ es) r
          → ((log : Log M E) (published : List (Entry M)) (finalized : Bool)
              → Carries begun (x ∷ es) (finished log published finalized)
              → Carries begun (pushed xs (x ∷ es)) (publish_each w c xs log published finalized))
          → Carries begun (pushed xs (x ∷ es)) (elim r [
            | returned log1 ↦ returned log1
            | finished log1 published1 finalized1 ↦ publish_each w c xs log1 published1 finalized1
          ])
      go (returned log1) k rest = tt
      go (finished log1 published1 finalized1) k rest = rest log1 published1 finalized1 k

  -- The round ended with a full batch, and with each of these entries marked.
  pub record Full (entries : List (Entry M)) (log : Log M E) : Type 0 where
    pub fresh : Log M E
    pub added : log ≡ fresh ++ begun
    pub whole : pos (length entries) ≡ c.batch_size
    pub finalized : All (IsFinalized fresh) entries

  is_full-true :
      (entries : List (Entry M)) (finalized : Bool)
      → is_full w c entries finalized ≡ true
      → (finalized ≡ true) × (pos (length entries) ≡ c.batch_size)
  is_full-true entries true h = (refl, int_equal-eq (pos (length entries)) c.batch_size h)
  is_full-true entries false h = cc

  conclude-Full :
      (entries : List (Entry M)) (r : Round M E)
      → Carries begun (pushed entries []) r
      → (conclude w c entries r).1 ≡ true
      → Full entries (conclude w c entries r).0
  unfolding conclude
  conclude-Full entries (returned log) k = λ h. cc
  conclude-Full entries (finished log published finalized) k =
      branched {R = Log M E × Bool} P (is_empty published) _ _
        (λ empty h.
          let (all, whole) = is_full-true entries finalized h in
          let (fresh, same, held) = k all in
          record {
            fresh = fresh;
            added = same;
            whole = whole;
            finalized =
                All-mono (Held published fresh) (IsFinalized fresh) entries
                  (λ e m. Held-empty published fresh e empty m)
                  ((All-pushed (Held published fresh) entries [] held).0);
          })
        (λ some_left. marked (w.mark_published log published))
    where
      P : Log M E × Bool → Type 0
      P r = r.1 ≡ true → Full entries r.0

      marked : (r : Option E) → P (published_result w c entries log published finalized r)
      marked (some e) = λ h. cc
      marked none = λ h.
          let (all, whole) = is_full-true entries finalized h in
          let (fresh, same, held) = k all in
          record {
            fresh = publication_marked published none ∷ fresh;
            added = ap (λ l. publication_marked published none ∷ l) same;
            whole = whole;
            finalized = (All-pushed (Held published fresh) entries [] held).0;
          }

module _ {M E : Type 0} (w : World M E) (c : Config) where
  -- The round claimed a batch of entries and ended with each of them marked.
  pub record Finished (log log' : Log M E) : Type 0 where
    pub entries : List (Entry M)
    pub answer : w.claim_pending log c.batch_size ≡ ok entries
    pub full : Full w c (claimed (ok entries) ∷ log) entries log'

  -- A round of the worker that reports a full batch has claimed as many entries as a batch has, and
  -- each of them was, after the claim, marked as published, or marked as failed, by a call that
  -- reported no error.
  pub process-Finished :
      (log : Log M E) → (process w c log).1 ≡ true → Finished log (process w c log).0
  unfolding process
  process-Finished log = go (w.claim_pending log c.batch_size) refl
    where
      go :
          (r : Result E (List (Entry M)))
          → w.claim_pending log c.batch_size ≡ r
          → (process_claimed w c (claimed r ∷ log) r).1 ≡ true
          → Finished log (process_claimed w c (claimed r ∷ log) r).0
      go (err e) same = λ h. cc
      go (ok entries) same =
          let begun : Log M E = claimed (ok entries) ∷ log in
          guarded {R = Log M E × Bool} (λ r. r.1 ≡ true → Finished log r.0) (is_empty entries) _ _
            (λ h. cc)
            (λ some_left h. record {
              entries = entries;
              answer = same;
              full =
                  conclude-Full w c begun entries (publish_each w c entries begun [] true)
                    (publish_each-Carries w c begun entries [] begun [] true (λ h. ([], refl, tt)))
                    h;
            })
