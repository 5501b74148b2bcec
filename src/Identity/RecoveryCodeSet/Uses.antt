-- ===== src/Identity/RecoveryCodeSet/Uses.antt =====
-- Sequences of calls on a set of recovery codes of
-- services/identity/internal/domain/recoverycodeset/recovery_code_set.go.
use careeria.Base.{
  ℕ, ◌+◌, ◌≡◌, refl, true, false, Option, none, List, [], ◌∷◌, ◌++◌, if◌then◌else◌, arith, length,
  Result, ok,
}
use careeria.Base.Text.{Text}
use careeria.Domain.{Time, Uuid}
use careeria.Identity.RecoveryCodeSet.{
  Error, UseOutcome, CodeDefinition, RecoveryCode, RecoveryCodeSet, new, collect, unused_code_count,
  disable, use_code,
}
use careeria.Identity.RecoveryCodeSet.Marking.{spent, accepted, Use, refuses, accepts, use_code-Use}

pub data Call : Type 0 where
  uses : Uuid → Call
  disables : Call

-- One call: the set that it leaves, and 1 where it accepted a code.
pub perform : RecoveryCodeSet → Call → Time → RecoveryCodeSet × ℕ
unfolding accepted
perform s (uses id) now = let (s', r) = use_code s id now in (s', if accepted r then 1 else 0)
perform s disables now = ((disable s now).0, 0)

-- Calls in a row, with the number of the codes accepted.
pub run : RecoveryCodeSet → List (Call × Time) → RecoveryCodeSet × ℕ
run s [] = (s, 0)
run s ((c, now) ∷ cs) = let (s', n) = perform s c now in let (s'', m) = run s' cs in (s'', n + m)

record Kept (s : RecoveryCodeSet) (n : ℕ) (s' : RecoveryCodeSet) : Type 0 where
  counted : n + unused_code_count s'.codes ≡ unused_code_count s.codes
  stays : (id : Uuid) → spent s.codes id ≡ true → spent s'.codes id ≡ true

Use-Kept :
    (s : RecoveryCodeSet) (id : Uuid) (r : RecoveryCodeSet × Result Error UseOutcome)
    → Use s id r
    → Kept s (if accepted r.1 then 1 else 0) r.0
unfolding accepted
Use-Kept s id _ refuses = record { counted = ground arith; stays = λ id h. h }
Use-Kept s id _ (accepts a) = record {
  counted = omega (arith, a.marks.fewer);
  stays = a.marks.kept;
}

perform-Kept :
    (s : RecoveryCodeSet) (c : Call) (now : Time) → Kept s (perform s c now).1 (perform s c now).0
unfolding perform disable
perform-Kept s (uses id) now = Use-Kept s id (use_code s id now) (use_code-Use s id now)
perform-Kept s disables now = record { counted = ground arith; stays = λ id h. ground arith }

run-Kept : (s : RecoveryCodeSet) (cs : List (Call × Time)) → Kept s (run s cs).1 (run s cs).0
unfolding run
run-Kept s [] = record { counted = omega arith; stays = λ id h. h }
run-Kept s ((c, now) ∷ cs) =
    let first = perform-Kept s c now in
    let rest = run-Kept (perform s c now).0 cs in
    record {
      counted = omega (arith, first.counted, rest.counted);
      stays = λ id h. rest.stays id (first.stays id h);
    }

spent-refused :
    (s : RecoveryCodeSet) (id : Uuid) (now : Time)
    → spent s.codes id ≡ true
    → accepted (use_code s id now).1 ≡ false
unfolding accepted
spent-refused s id now gone = go (use_code s id now) (use_code-Use s id now)
  where
    go : (r : RecoveryCodeSet × Result Error UseOutcome) → Use s id r → accepted r.1 ≡ false
    go _ refuses = refl
    go _ (accepts a) = ground (arith, a.unspent)

accepted-spent :
    (s : RecoveryCodeSet) (id : Uuid) (now : Time)
    → accepted (use_code s id now).1 ≡ true
    → spent (use_code s id now).0.codes id ≡ true
unfolding accepted
accepted-spent s id now done = go (use_code s id now) (use_code-Use s id now) done
  where
    go :
        (r : RecoveryCodeSet × Result Error UseOutcome)
        → Use s id r
        → accepted r.1 ≡ true
        → spent r.0.codes id ≡ true
    go _ refuses h = ground arith
    go _ (accepts a) h = a.marks.marked

-- A recovery code that was accepted once is refused ever after, whatever calls come between.
pub use_code_single_use :
    (s : RecoveryCodeSet) (id : Uuid) (now later : Time) (cs : List (Call × Time))
    → accepted (use_code s id now).1 ≡ true
    → accepted (use_code (run (use_code s id now).0 cs).0 id later).1 ≡ false
use_code_single_use s id now later cs done =
    spent-refused (run (use_code s id now).0 cs).0 id later
      ((run-Kept (use_code s id now).0 cs).stays id (accepted-spent s id now done))

unused-append :
    (xs ys : List RecoveryCode)
    → unused_code_count (xs ++ ys) ≡ unused_code_count xs + unused_code_count ys
unused-append [] ys = omega arith
unused-append (x ∷ xs) ys = ground (arith, unused-append xs ys)

collect-unused :
    (ids : List Uuid) (hashes : List Text) (codes : List RecoveryCode) (ds : List CodeDefinition)
    (now : Time) (made : List RecoveryCode)
    → collect ids hashes codes ds now ≡ ok made
    → unused_code_count made ≡ unused_code_count codes + length ds
unfolding collect
collect-unused ids hashes codes [] now made h = ground arith
collect-unused ids hashes codes (d ∷ ds) now made h =
    let code : RecoveryCode = record {
      id = d.id;
      hash = d.hash;
      created_at = now;
      used_at = none;
    } in
    ground (
      arith,
      unused-append codes (code ∷ []),
      collect-unused (d.id ∷ ids) (d.hash ∷ hashes) (codes ++ code ∷ []) ds now made,
    )

-- Through all calls on a new set, the number of the codes accepted and of those still unused make
-- up the number of the codes that it was created with.
new-run-codes :
    (id identity_id : Uuid) (ds : List CodeDefinition) (expires_at : Option Time) (now : Time)
    (s : RecoveryCodeSet) (cs : List (Call × Time))
    → new id identity_id ds expires_at now ≡ ok s
    → (run s cs).1 + unused_code_count (run s cs).0.codes ≡ length ds
unfolding new
new-run-codes id identity_id ds expires_at now s cs h =
    let made : collect [] [] [] ds now ≡ ok s.codes = ground arith in
    omega (arith, (run-Kept s cs).counted, collect-unused [] [] [] ds now s.codes made)
