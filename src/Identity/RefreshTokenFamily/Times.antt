-- ===== src/Identity/RefreshTokenFamily/Times.antt =====
-- How the last change of a token and of a family moves when a time is recorded.
use careeria.Base.{◌≡◌, ◌≤◌, Option, none, some, arith}
use careeria.Domain.{Time, later}
use careeria.Identity.RefreshTokenFamily.Token.{RefreshToken, token_changed_at}
use careeria.Identity.RefreshTokenFamily.{RefreshTokenFamily, family_changed_at}

pub later-le : (value : Option Time) (latest : Time) → latest ≤ later value latest
later-le none latest = omega arith
later-le (some t) latest = ground arith

pub later-bound : (value : Option Time) (a b : Time) → a ≤ b → later value a ≤ later value b
later-bound none a b h = h
later-bound (some t) a b h = ground arith

later-now : (value : Option Time) (a now : Time) → later value a ≤ now → a ≤ now
later-now none a now h = h
later-now (some t) a now h = ground arith

module _ (t : RefreshToken) (now : Time) (h : token_changed_at t ≤ now) where
  pub changed-rotated : token_changed_at (record t { rotated_at = some now }) ≤ now
  unfolding token_changed_at
  changed-rotated = ground arith

  pub changed-revoked : token_changed_at (record t { revoked_at = some now }) ≤ now
  unfolding token_changed_at
  changed-revoked = ground arith

  pub changed-reuse : token_changed_at (record t { reuse_detected_at = some now }) ≤ now
  unfolding token_changed_at
  changed-reuse = ground arith

pub changed-fresh :
    (t : RefreshToken)
    → t.rotated_at ≡ none
    → t.revoked_at ≡ none
    → t.reuse_detected_at ≡ none
    → token_changed_at t ≡ t.issued_at
unfolding token_changed_at
changed-fresh t p q r = ground arith

module _ (f : RefreshTokenFamily) (now : Time) (h : family_changed_at f ≤ now) where
  pub family-changed-rotated : family_changed_at (record f { last_rotated_at = some now }) ≡ now
  unfolding family_changed_at
  family-changed-rotated = ground arith

  pub family-changed-revoked : family_changed_at (record f { revoked_at = some now }) ≡ now
  unfolding family_changed_at
  family-changed-revoked = ground arith

  pub family-changed-reuse : family_changed_at (record f { reuse_detected_at = some now }) ≡ now
  unfolding family_changed_at
  family-changed-reuse = ground arith

pub created-le : (f : RefreshTokenFamily) → f.created_at ≤ family_changed_at f
unfolding family_changed_at
created-le f = ground arith
