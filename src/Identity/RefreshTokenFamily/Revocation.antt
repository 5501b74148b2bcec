-- ===== src/Identity/RefreshTokenFamily/Revocation.antt =====
-- What `Revoke` does to a well-formed family.

use careeria.Base.{
  ◌≡◌, ◌≤◌, ◌<◌, refl, Bool, true, false, Option, none, some, List, map, arith, is_some, is_empty,
  All, All-mono, Distinct, nat_comparable, list_comparable, Bool-cases, inl, inr, ◌||◌,
}
use careeria.Base.Text.{Text, trim_space, trim_space_idem}
use careeria.Domain.{Time, before, is_zero, normalize_required_text}
use careeria.Identity.RefreshTokenFamily.Errors.{Error}
use careeria.Identity.RefreshTokenFamily.Token.{RefreshToken, token_changed_at}
use careeria.Identity.RefreshTokenFamily.Times.{changed-revoked, family-changed-revoked, created-le}
use careeria.Identity.RefreshTokenFamily.Listing.{
  revoked_as, revoke_tokens-eq, map-revoked, All-revoked,
}
use careeria.Identity.RefreshTokenFamily.Invariant.{
  link, IsChain, TokenOk, TokenOk-mono, WellFormed,
}
use careeria.Identity.RefreshTokenFamily.{RefreshTokenFamily, family_changed_at, revoke_all, revoke}

-- The family in which every token that was not is revoked.
abbrev pub revoked_family : RefreshTokenFamily → Text → Time → RefreshTokenFamily
revoked_family f reason now = record f {
  tokens = map (revoked_as reason now) f.tokens;
  revoked_at = some now;
  revoke_reason = some reason;
}

-- What `revoke` needs of the family it is called on.
pub record Revocable (f : RefreshTokenFamily) (now : Time) : Type 0 where
  pub positive : 0 < now
  pub timed : All (λ t. token_changed_at t ≤ now) f.tokens

pub revoke_all-eq :
    (f : RefreshTokenFamily) (reason : Text) (now : Time)
    → trim_space reason ≡ reason
    → is_empty reason ≡ false
    → Revocable f now
    → revoke_all f reason now ≡ (revoked_family f reason now, none)
unfolding revoke_all
revoke_all-eq f reason now trimmed present r =
    ground (arith, revoke_tokens-eq reason now trimmed present r.positive f.tokens r.timed)

revoked_as-ok :
    (reason : Text) (now expires : Time) (revoked : Bool) (t : RefreshToken)
    → TokenOk now expires revoked t
    → TokenOk now expires true (revoked_as reason now t)
unfolding token_changed_at
revoked_as-ok reason now expires revoked t k = elim (Bool-cases (is_some t.revoked_at)) [
  | inl old ↦ rw old (record { timed = k.timed; bounded = k.bounded; revoked_together = old })
  | inr new ↦ rw new (record {
    timed = changed-revoked t now k.timed;
    bounded = k.bounded;
    revoked_together = refl;
  })
]

pub changed-revoked_family :
    (f : RefreshTokenFamily) (reason : Text) (now : Time)
    → family_changed_at f ≤ now
    → family_changed_at (revoked_family f reason now) ≡ now
unfolding family_changed_at
changed-revoked_family f reason now h = family-changed-revoked f now h

-- Revoking keeps the chain, whether or not the tokens were revoked before.
pub revoked_family-WellFormed :
    (f : RefreshTokenFamily) (reason : Text) (now : Time) (revoked : Bool)
    → 0 < f.created_at
    → family_changed_at f ≤ now
    → All (TokenOk now f.absolute_expires_at revoked) f.tokens
    → IsChain none (map link f.tokens)
    → Distinct (map (λ t. t.id) f.tokens)
    → Distinct (map (λ t. t.hash) f.tokens)
    → WellFormed (revoked_family f reason now)
revoked_family-WellFormed f reason now revoked dated h sound chain ids hashes = record {
  dated = dated;
  tokens_ok = rw (changed-revoked_family f reason now h) (
      All-revoked _ _ reason now f.tokens (revoked_as-ok reason now f.absolute_expires_at revoked)
        sound);
  chain = rw (map-revoked link reason now f.tokens (λ t. ground arith)) chain;
  ids = rw (map-revoked (λ t. t.id) reason now f.tokens (λ t. ground arith)) ids;
  hashes = rw (map-revoked (λ t. t.hash) reason now f.tokens (λ t. ground arith)) hashes;
  reuse_revokes = λ e. refl;
}

pub tokens-at :
    (f : RefreshTokenFamily) (now : Time)
    → WellFormed f
    → family_changed_at f ≤ now
    → All (TokenOk now f.absolute_expires_at (is_some f.revoked_at)) f.tokens
tokens-at f now w h =
    All-mono _ _ f.tokens (λ t k. TokenOk-mono (family_changed_at f) now _ _ t h k) w.tokens_ok

pub timed-at :
    (expires : Time) (revoked : Bool) (now : Time) (ts : List RefreshToken)
    → All (TokenOk now expires revoked) ts
    → All (λ t. token_changed_at t ≤ now) ts
timed-at expires revoked now ts h = All-mono _ _ ts (λ t k. k.timed) h

pub Revocable-at :
    (f : RefreshTokenFamily) (now : Time)
    → WellFormed f
    → family_changed_at f ≤ now
    → Revocable f now
Revocable-at f now w h = record {
  positive = omega (arith, created-le f, w.dated);
  timed = timed-at _ _ now f.tokens (tokens-at f now w h);
}

-- `Revoke` leaves a well-formed family as it was, or revokes it and every token.
pub revoke-split {ℓ} :
    (P : RefreshTokenFamily × Option Error → Type ℓ) (f : RefreshTokenFamily) (reason : Text)
    (now : Time)
    → WellFormed f
    → ((e : Option Error) → P (f, e))
    → (family_changed_at f ≤ now → P (revoked_family f (trim_space reason) now, none))
    → P (revoke f reason now)
unfolding revoke normalize_required_text
revoke-split P f reason now w same all = elim (Bool-cases (is_some f.revoked_at)) [
  | inl old ↦ rw (revoke, old) (same none)
  | inr live ↦ elim (Bool-cases (is_zero now || before now (family_changed_at f))) [
    | inl early ↦ rw (revoke, live, early) (same _)
    | inr late ↦ elim (Bool-cases (is_empty (trim_space reason))) [
      | inl blank ↦ rw (revoke, live, late, blank) (same _)
      | inr present ↦
          let h : family_changed_at f ≤ now = ground arith in
          rw
            (
              revoke,
              live,
              late,
              present,
              revoke_all-eq f (trim_space reason) now (trim_space_idem reason) present
                  (Revocable-at f now w h),
            )
            (all h)
    ]
  ]
]

-- Revoking a well-formed family, with any reason at any time, leaves it well formed.
pub revoke-WellFormed :
    (f : RefreshTokenFamily) (reason : Text) (now : Time)
    → WellFormed f
    → WellFormed (revoke f reason now).0
revoke-WellFormed f reason now w =
    revoke-split (λ r. WellFormed r.0) f reason now w (λ e. w)
      (λ h.
        revoked_family-WellFormed f (trim_space reason) now (is_some f.revoked_at) w.dated h
          (tokens-at f now w h) w.chain w.ids w.hashes)
