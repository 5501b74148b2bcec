-- ===== src/Identity/RefreshTokenFamily/Invariant.antt =====
-- The well-formedness of a family: the tokens form one rotation chain of which only the
-- last may still be rotated, and they are revoked together.

use careeria.Base.{
  ◌≡◌, ◌≤◌, ◌<◌, refl, Bool, true, false, Option, none, some, List, [], ◌∷◌, ◌++◌, map, arith,
  is_some, All, Distinct, ok, nat_comparable, list_comparable,
}
use careeria.Base.Text.{Text}
use careeria.Domain.{Time, Uuid}
use careeria.Identity.RefreshTokenFamily.Token.{RefreshToken, token_changed_at}
use careeria.Identity.RefreshTokenFamily.{RefreshTokenFamily, family_changed_at, new}

-- What the chain is about: a token's identifier, its parent's, and whether it was rotated.
pub record Link : Type 0 where
  pub id : Uuid
  pub parent : Option Uuid
  pub used : Bool

abbrev pub link : RefreshToken → Link
link t = record { id = t.id; parent = t.parent_token_id; used = is_some t.rotated_at }

-- Each link has the one before it as its parent; all are used but the last.
abbrev pub IsChain : Option Uuid → List Link → Type 0
IsChain parent [] = ⊥
IsChain parent (l ∷ []) = (l.parent ≡ parent) × (l.used ≡ false)
IsChain parent (l ∷ m ∷ ls) = (l.parent ≡ parent) × (l.used ≡ true) × IsChain (some l.id) (m ∷ ls)

pub record TokenOk (changed expires : Time) (revoked : Bool) (t : RefreshToken) : Type 0 where
  pub timed : token_changed_at t ≤ changed
  pub bounded : t.expires_at ≤ expires
  pub revoked_together : is_some t.revoked_at ≡ revoked

pub record WellFormed (f : RefreshTokenFamily) : Type 0 where
  pub dated : 0 < f.created_at
  pub tokens_ok :
      All (TokenOk (family_changed_at f) f.absolute_expires_at (is_some f.revoked_at)) f.tokens
  pub chain : IsChain none (map link f.tokens)
  pub ids : Distinct (map (λ t. t.id) f.tokens)
  pub hashes : Distinct (map (λ t. t.hash) f.tokens)
  pub reuse_revokes : is_some f.reuse_detected_at ≡ true → is_some f.revoked_at ≡ true

-- A new family is well formed.
pub new-WellFormed :
    (id session_id token_id : Uuid) (hash : Text) (token_expires_at absolute_expires_at : Time)
    (ip user_agent : Option Text) (now : Time) {f : RefreshTokenFamily}
    → new id session_id token_id hash token_expires_at absolute_expires_at ip user_agent now ≡ ok f
    → WellFormed f
unfolding new token_changed_at family_changed_at
new-WellFormed id session_id token_id hash token_expires_at absolute_expires_at ip ua now h =
    ground arith

-- An unused link can only be the last.
pub IsChain-unused :
    (p : Option Uuid) (front : List RefreshToken) (t : RefreshToken) (back : List RefreshToken)
    → IsChain p (map link (front ++ t ∷ back))
    → is_some t.rotated_at ≡ false
    → back ≡ []
IsChain-unused p [] t [] h u = refl
IsChain-unused p [] t (y ∷ back) h u = cc (h.1)
IsChain-unused p (x ∷ []) t back h u = IsChain-unused (some x.id) [] t back h.2 u
IsChain-unused p (x ∷ y ∷ front) t back h u = IsChain-unused (some x.id) (y ∷ front) t back h.2 u

-- The last link, used, has its successor behind it.
pub IsChain-extend :
    (p : Option Uuid) (front : List RefreshToken) (t u next : RefreshToken)
    → IsChain p (map link (front ++ t ∷ []))
    → u.id ≡ t.id
    → u.parent_token_id ≡ t.parent_token_id
    → is_some u.rotated_at ≡ true
    → next.parent_token_id ≡ some t.id
    → is_some next.rotated_at ≡ false
    → IsChain p (map link (front ++ u ∷ next ∷ []))
IsChain-extend p [] t u next h i q r s n = ground arith
IsChain-extend p (x ∷ []) t u next h i q r s n =
    (h.0, h.1, IsChain-extend (some x.id) [] t u next h.2 i q r s n)
IsChain-extend p (x ∷ y ∷ front) t u next h i q r s n =
    (h.0, h.1, IsChain-extend (some x.id) (y ∷ front) t u next h.2 i q r s n)

pub TokenOk-mono :
    (changed later expires : Time) (revoked : Bool) (t : RefreshToken)
    → changed ≤ later
    → TokenOk changed expires revoked t
    → TokenOk later expires revoked t
TokenOk-mono changed later expires revoked t h k = record {
  timed = omega (arith, k.timed);
  bounded = k.bounded;
  revoked_together = k.revoked_together;
}
