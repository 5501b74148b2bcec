-- ===== src/Identity/RefreshTokenFamily/Listing.antt =====
-- The token list of a family: looking a token up, replacing it, revoking all of them.

use careeria.Base.{
  ℕ, ◌≡◌, ◌≤◌, ◌<◌, refl, ap, false, none, some, List, [], ◌∷◌, ◌++◌, map, arith, is_some, is_empty,
  set, All, Bool-cases, Option-cases, inl, inr, ◌==◌, if◌then◌else◌,
}
use careeria.Base.Text.{Text, trim_space}
use careeria.Domain.{Time, Uuid, normalize_required_text}
use careeria.Identity.RefreshTokenFamily.Token.{RefreshToken, token_changed_at, revoke_token}
use careeria.Identity.RefreshTokenFamily.{token_index, revoke_tokens}

-- Where `token_index` found a token: the list around it, and what a write at the index gives.
pub record Found (ts : List RefreshToken) (id : Uuid) (i : ℕ) (t : RefreshToken) : Type 0 where
  pub front : List RefreshToken
  pub back : List RefreshToken
  pub split : ts ≡ front ++ t ∷ back
  pub written : (v : RefreshToken) → set ts i v ≡ front ++ v ∷ back
  pub same_id : t.id ≡ id
  pub located : token_index ts id ≡ some (i, t)

pub token_index-Found :
    (ts : List RefreshToken) (id : Uuid) (i : ℕ) (t : RefreshToken)
    → token_index ts id ≡ some (i, t)
    → Found ts id i t
unfolding token_index
token_index-Found [] id i t h = cc
token_index-Found (x ∷ ts) id i t h = elim (Bool-cases (x.id == id)) [
  | inl hit ↦ record {
    front = [];
    back = ts;
    split = ground arith;
    written = λ v. ground arith;
    same_id = ground arith;
    located = h;
  }
  | inr miss ↦ elim (Option-cases (token_index ts id)) [
    | inl e ↦ ground arith
    | inr ((j, y), e) ↦
        let deeper = token_index-Found ts id j y e in
        record {
          front = x ∷ deeper.front;
          back = deeper.back;
          split = ground (arith, deeper.split);
          written = λ v. ground (arith, deeper.written v);
          same_id = ground (arith, deeper.same_id);
          located = h;
        }
  ]
]

pub All-split {ℓ} :
    (P : RefreshToken → Type ℓ) (front : List RefreshToken) (t : RefreshToken)
    (back : List RefreshToken)
    → All P (front ++ t ∷ back)
    → P t
All-split P [] t back h = h.0
All-split P (x ∷ front) t back h = All-split P front t back h.1

pub All-replace {ℓ} :
    (P : RefreshToken → Type ℓ) (front : List RefreshToken) (t v : RefreshToken)
    (back : List RefreshToken)
    → All P (front ++ t ∷ back)
    → P v
    → All P (front ++ v ∷ back)
All-replace P [] t v back h p = (p, h.1)
All-replace P (x ∷ front) t v back h p = (h.0, All-replace P front t v back h.1 p)

-- A view of the tokens does not change where a token is replaced by one that looks the same.
pub map-replace {ℓ} :
    {B : Type ℓ} (view : RefreshToken → B) (front : List RefreshToken) (t v : RefreshToken)
    (back : List RefreshToken)
    → view v ≡ view t
    → map view (front ++ v ∷ back) ≡ map view (front ++ t ∷ back)
map-replace view [] t v back e = rw e
map-replace view (x ∷ front) t v back e = ap (◌∷◌ (view x)) (map-replace view front t v back e)

-- What `revoke_token` makes of a token when it succeeds.
abbrev pub revoked_as : Text → Time → RefreshToken → RefreshToken
revoked_as reason now t =
    if is_some t.revoked_at
    then t
    else record t { revoked_at = some now; revoke_reason = some reason }

module _ (reason : Text) (now : Time) (trimmed : trim_space reason ≡ reason)
    (present : is_empty reason ≡ false) (positive : 0 < now) where
  revoke_token-eq :
      (t : RefreshToken)
      → token_changed_at t ≤ now
      → revoke_token t reason now ≡ (revoked_as reason now t, none)
  unfolding revoke_token normalize_required_text
  revoke_token-eq t h = rw (trimmed, present) (ground arith)

  -- With a reason that is trimmed and not blank, and no token changed after `now`, the loop
  -- revokes every token and meets no error.
  pub revoke_tokens-eq :
      (ts : List RefreshToken)
      → All (λ t. token_changed_at t ≤ now) ts
      → revoke_tokens ts reason now ≡ (map (revoked_as reason now) ts, none)
  unfolding revoke_tokens
  revoke_tokens-eq [] h = refl
  revoke_tokens-eq (t ∷ ts) h = ground (arith, revoke_token-eq t h.0, revoke_tokens-eq ts h.1)

pub map-revoked {ℓ} :
    {B : Type ℓ} (view : RefreshToken → B) (reason : Text) (now : Time) (ts : List RefreshToken)
    → ((t : RefreshToken) → view (revoked_as reason now t) ≡ view t)
    → map view (map (revoked_as reason now) ts) ≡ map view ts
map-revoked view reason now [] e = refl
map-revoked view reason now (t ∷ ts) e = rw (e t, map-revoked view reason now ts e)

pub All-revoked {ℓ κ} :
    (P : RefreshToken → Type ℓ) (Q : RefreshToken → Type κ) (reason : Text) (now : Time)
    (ts : List RefreshToken)
    → ((t : RefreshToken) → P t → Q (revoked_as reason now t))
    → All P ts
    → All Q (map (revoked_as reason now) ts)
All-revoked P Q reason now [] f h = tt
All-revoked P Q reason now (t ∷ ts) f h = (f t h.0, All-revoked P Q reason now ts f h.1)
