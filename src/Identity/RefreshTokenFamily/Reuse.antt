-- ===== src/Identity/RefreshTokenFamily/Reuse.antt =====
-- A token presented a second time, a family that was revoked, and histories of calls.
use careeria.Base.{
  ℕ, ◌≡◌, ◌∙◌, ◌≤◌, ◌<◌, refl, inl, inr, true, false, ◌||◌, Option, none, some, List, [], ◌∷◌, ◌++◌,
  map, arith, is_some, set, All, All-mono, ok, err, ◌==◌, Bool-cases, Option-cases,
}
use careeria.Base.Text.{Text}
use careeria.Domain.{Time, Uuid, before, is_zero}
use careeria.Identity.RefreshTokenFamily.Errors.{
  Error, rotation_time_invalid, family_revoked, token_already_rotated,
}
use careeria.Identity.RefreshTokenFamily.Token.{RefreshToken, validate_for_rotation}
use careeria.Identity.RefreshTokenFamily.Times.{created-le}
use careeria.Identity.RefreshTokenFamily.Listing.{revoked_as, Found, token_index-Found, All-split}
use careeria.Identity.RefreshTokenFamily.Revocation.{revoked_family, tokens-at, revoke-WellFormed}
use careeria.Identity.RefreshTokenFamily.Invariant.{WellFormed, new-WellFormed}
use careeria.Identity.RefreshTokenFamily.Presenting.{Reused, marked, detect_reuse-eq}
use careeria.Identity.RefreshTokenFamily.Rotation.{allowed_late}
use careeria.Identity.RefreshTokenFamily.Safety.{rotate-WellFormed}
use careeria.Identity.RefreshTokenFamily.Spent.{
  spent, spent-at, spent-found, Keeps, rotate-Keeps, revoke-Keeps,
}
use careeria.Identity.RefreshTokenFamily.SingleUse.{rotate-Rotation}
use careeria.Identity.RefreshTokenFamily.{
  RefreshTokenFamily, NextToken, rotated, reuse_detected, family_changed_at, new, revoke, rotate,
  reuse_detected_revoke_reason, token_index, ensure_rotation_allowed,
}

abbrev pub AllRevoked : RefreshTokenFamily → Type 0
AllRevoked f = (is_some f.revoked_at ≡ true) × All (λ t. is_some t.revoked_at ≡ true) f.tokens

validate-used :
    (t : RefreshToken) (now : Time)
    → Reused t now
    → validate_for_rotation t now ≡ some token_already_rotated
unfolding validate_for_rotation
validate-used t now r = ground (arith, r.used, r.late, r.positive)

-- Whenever rotation is allowed, a token that was rotated before is found to be.
Found-Reused :
    (f : RefreshTokenFamily) (id : Uuid) (i : ℕ) (t : RefreshToken) (now : Time)
    → WellFormed f
    → family_changed_at f ≤ now
    → Found f.tokens id i t
    → is_some t.rotated_at ≡ true
    → Reused t now
Found-Reused f id i t now w h found used =
    let sound = rw found.split at (tokens-at f now w h) in
    record {
      used = used;
      late = (All-split _ found.front t found.back sound).timed;
      positive = omega (arith, created-le f, w.dated);
    }

rotate-used :
    (f : RefreshTokenFamily) (id : Uuid) (next : NextToken) (now : Time) (i : ℕ) (t : RefreshToken)
    → WellFormed f
    → ensure_rotation_allowed f now ≡ none
    → token_index f.tokens id ≡ some (i, t)
    → is_some t.rotated_at ≡ true
    → rotate f id next now
      ≡ (revoked_family (marked f i t now) reuse_detected_revoke_reason now, ok reuse_detected)
unfolding rotate
rotate-used f id next now i t w allowed at used =
    let found = token_index-Found f.tokens id i t at in
    let h = allowed_late f now allowed in
    let r = Found-Reused f id i t now w h found used in
    rw (rotate, allowed, at, validate-used t now r) (detect_reuse-eq f id i t now w h found r)

AllRevoked-revoked :
    (f : RefreshTokenFamily) (reason : Text) (now : Time) → AllRevoked (revoked_family f reason now)
AllRevoked-revoked f reason now = (refl, every f.tokens)
  where
    every :
        (ts : List RefreshToken)
        → All (λ t. is_some t.revoked_at ≡ true) (map (revoked_as reason now) ts)
    every [] = tt
    every (t ∷ ts) = (ground arith, every ts)

token_index-rotated :
    (ts : List RefreshToken) (id : Uuid) (i : ℕ) (t token : RefreshToken) (now : Time)
    → token_index ts id ≡ some (i, t)
    → token_index (set ts i (record t { rotated_at = some now }) ++ token ∷ []) id
      ≡ some (i, record t { rotated_at = some now })
unfolding token_index
token_index-rotated [] id i t token now h = cc
token_index-rotated (x ∷ ts) id i t token now h = elim (Bool-cases (x.id == id)) [
  | inl hit ↦ ground arith
  | inr miss ↦ elim (Option-cases (token_index ts id)) [
    | inl e ↦ ground arith
    | inr ((j, y), e) ↦ ground (arith, token_index-rotated ts id j y token now e)
  ]
]

-- A revoked family answers every call of `Rotate` with an error and every call of `Revoke` with
-- none, and neither changes it.
revoked_absorbs :
    (f : RefreshTokenFamily) (id : Uuid) (next : NextToken) (reason : Text) (now : Time)
    → is_some f.revoked_at ≡ true
    → ((e : Error) × (rotate f id next now ≡ (f, err e))) × (revoke f reason now ≡ (f, none))
unfolding rotate revoke
revoked_absorbs f id next reason now h = (refused, rw (revoke, h))
  where
    refused : (e : Error) × (rotate f id next now ≡ (f, err e))
    refused = elim (Bool-cases (is_zero now || before now (family_changed_at f))) [
      | inl early ↦ (rotation_time_invalid, rw (rotate, early))
      | inr late ↦ (family_revoked, rw (rotate, late, h))
    ]

-- The calls of a family's methods that change it, and what a sequence of them leaves.
pub data Call : Type 0 where
  rotates : Uuid → NextToken → Time → Call
  revokes : Text → Time → Call

unfoldable pub step : RefreshTokenFamily → Call → RefreshTokenFamily
step f (rotates id next now) = (rotate f id next now).0
step f (revokes reason now) = (revoke f reason now).0

unfoldable pub run : RefreshTokenFamily → List Call → RefreshTokenFamily
run f [] = f
run f (c ∷ cs) = run (step f c) cs

step-WellFormed : (f : RefreshTokenFamily) (c : Call) → WellFormed f → WellFormed (step f c)
unfolding step
step-WellFormed f (rotates id next now) w = rotate-WellFormed f id next now w
step-WellFormed f (revokes reason now) w = revoke-WellFormed f reason now w

run-WellFormed : (f : RefreshTokenFamily) (cs : List Call) → WellFormed f → WellFormed (run f cs)
unfolding run
run-WellFormed f [] w = w
run-WellFormed f (c ∷ cs) w = run-WellFormed (step f c) cs (step-WellFormed f c w)

step-Keeps : (id : Uuid) (f : RefreshTokenFamily) (c : Call) → WellFormed f → Keeps id f (step f c)
unfolding step
step-Keeps id f (rotates presented next now) w = rotate-Keeps id f presented next now w
step-Keeps id f (revokes reason now) w = revoke-Keeps id f reason now w

run-Keeps :
    (id : Uuid) (f : RefreshTokenFamily) (cs : List Call) → WellFormed f → Keeps id f (run f cs)
unfolding run
run-Keeps id f [] w = record { spent_still = λ h. h; expiry = refl }
run-Keeps id f (c ∷ cs) w =
    let first = step-Keeps id f c w in
    let later = run-Keeps id (step f c) cs (step-WellFormed f c w) in
    record {
      spent_still = λ h. later.spent_still (first.spent_still h);
      expiry = later.expiry ∙ first.expiry;
    }

rotate-spent :
    (f : RefreshTokenFamily) (id : Uuid) (next : NextToken) (now : Time)
    → WellFormed f
    → (rotate f id next now).1 ≡ ok rotated
    → spent (rotate f id next now).0.tokens id ≡ true
rotate-spent f id next now w done =
    let r = rotate-Rotation f id next now w done in
    rw r.result (
      spent-at _ id r.index (record r.presented { rotated_at = some now })
        (token_index-rotated f.tokens id r.index r.presented r.token now r.found.located) refl)

live-allowed :
    (g : RefreshTokenFamily) (now : Time)
    → WellFormed g
    → is_some g.revoked_at ≡ false
    → family_changed_at g ≤ now
    → now < g.absolute_expires_at
    → ensure_rotation_allowed g now ≡ none
unfolding ensure_rotation_allowed
live-allowed g now w live late unexpired =
    ground (arith, created-le g, w.dated, live, late, unexpired)

revoked-AllRevoked :
    (g : RefreshTokenFamily) → WellFormed g → is_some g.revoked_at ≡ true → AllRevoked g
revoked-AllRevoked g w gone =
    (gone, All-mono _ _ g.tokens (λ t k. k.revoked_together ∙ gone) w.tokens_ok)

-- What presenting a rotated token does: the family is revoked, and told so unless it was before.
replayed :
    (g : RefreshTokenFamily) (id : Uuid) (next : NextToken) (now : Time)
    → WellFormed g
    → spent g.tokens id ≡ true
    → family_changed_at g ≤ now
    → now < g.absolute_expires_at
    → AllRevoked (rotate g id next now).0
      × (is_some g.revoked_at ≡ false → (rotate g id next now).1 ≡ ok reuse_detected)
replayed g id next now w used late unexpired = elim (Bool-cases (is_some g.revoked_at)) [
  | inl gone ↦
      let (e, same) = (revoked_absorbs g id next [] now gone).0 in
      rw same (revoked-AllRevoked g w gone, λ live. cc (gone, live))
  | inr live ↦
      let (i, t, at, rotated_before) = spent-found g.tokens id used in
      let e =
        rotate-used g id next now i t w (live-allowed g now w live late unexpired) at
          rotated_before in
      rw e (AllRevoked-revoked (marked g i t now) reuse_detected_revoke_reason now, λ h. refl)
]

-- Replay: after a token was rotated and any further calls, presenting it again, with any next token,
-- at a time that is not before the last change of the family and is before its absolute expiry,
-- leaves the family and every one of its tokens revoked. The answer is `reuse_detected`, unless the
-- family had been revoked before.
pub rotate_replay :
    (f : RefreshTokenFamily) (id : Uuid) (next next' : NextToken) (now now' : Time) (cs : List Call)
    → WellFormed f
    → (rotate f id next now).1 ≡ ok rotated
    → let g = run (rotate f id next now).0 cs in
      family_changed_at g ≤ now'
      → now' < f.absolute_expires_at
      → AllRevoked (rotate g id next' now').0
        × (is_some g.revoked_at ≡ false → (rotate g id next' now').1 ≡ ok reuse_detected)
rotate_replay f id next next' now now' cs w done late unexpired =
    let first = rotate-Keeps id f id next now w in
    let sound = rotate-WellFormed f id next now w in
    let kept = run-Keeps id (rotate f id next now).0 cs sound in
    replayed (run (rotate f id next now).0 cs) id next' now'
      (run-WellFormed (rotate f id next now).0 cs sound)
      (kept.spent_still (rotate-spent f id next now w done)) late
      (rw (kept.expiry ∙ first.expiry) unexpired)

-- Every family reached from a new one by any calls at any times is well formed: its tokens form
-- one chain, in which each has the one before it as its parent and exactly the last was never
-- rotated; their identifiers and hashes are distinct; none outlives the family or changed after
-- it; the family is revoked if and only if each token is, and it is revoked once reuse was
-- detected.
pub new-run_family-WellFormed :
    (id session_id token_id : Uuid) (hash : Text) (token_expires_at absolute_expires_at : Time)
    (ip user_agent : Option Text) (now : Time) (f : RefreshTokenFamily) (cs : List Call)
    → new id session_id token_id hash token_expires_at absolute_expires_at ip user_agent now ≡ ok f
    → WellFormed (run f cs)
new-run_family-WellFormed id session_id token_id hash token_expires absolute_expires ip ua now f cs
      made =
    run-WellFormed f cs
      (new-WellFormed id session_id token_id hash token_expires absolute_expires ip ua now made)
