-- ===== src/Identity/RefreshTokenFamily/SingleUse.antt =====
-- What a successful call of `Rotate` found in the family, and which token it can present.
use careeria.Base.{
  ℕ, ◌≡◌, ◌≤◌, refl, sym, ◌∙◌, Option, none, some, List, [], ◌∷◌, ◌++◌, ok, nat_comparable,
  list_comparable,
}
use careeria.Domain.{Time, Uuid}
use careeria.Identity.RefreshTokenFamily.Token.{RefreshToken}
use careeria.Identity.RefreshTokenFamily.Listing.{Found}
use careeria.Identity.RefreshTokenFamily.Invariant.{IsChain-unused, WellFormed}
use careeria.Identity.RefreshTokenFamily.Presenting.{Rotatable}
use careeria.Identity.RefreshTokenFamily.Rotation.{rotated_family, rotate-split}
use careeria.Identity.RefreshTokenFamily.{
  RefreshTokenFamily, NextToken, rotated, family_changed_at, rotate,
}

-- What is known after a successful rotation.
pub record Rotation (f g : RefreshTokenFamily) (id : Uuid) (now : Time) : Type 0 where
  pub index : ℕ
  pub presented : RefreshToken
  pub token : RefreshToken
  pub found : Found f.tokens id index presented
  pub late : family_changed_at f ≤ now
  pub rotatable : Rotatable presented now
  pub result : g ≡ rotated_family f index presented token now

pub rotate-Rotation :
    (f : RefreshTokenFamily) (id : Uuid) (next : NextToken) (now : Time)
    → WellFormed f
    → (rotate f id next now).1 ≡ ok rotated
    → Rotation f (rotate f id next now).0 id now
rotate-Rotation f id next now w =
    rotate-split (λ r. r.1 ≡ ok rotated → Rotation f r.0 id now) f id next now w (λ e h. cc)
      (λ i t found h r p. cc)
      (λ i t token found h r k p. record {
        index = i;
        presented = t;
        token = token;
        found = found;
        late = h;
        rotatable = r;
        result = refl;
      })

abbrev last_of : List RefreshToken → Option RefreshToken
last_of [] = none
last_of (t ∷ []) = some t
last_of (t ∷ u ∷ ts) = last_of (u ∷ ts)

last_of-snoc : (ts : List RefreshToken) (t : RefreshToken) → last_of (ts ++ t ∷ []) ≡ some t
last_of-snoc [] t = refl
last_of-snoc (x ∷ []) t = refl
last_of-snoc (x ∷ y ∷ ts) t = last_of-snoc (y ∷ ts) t

Rotation-last :
    (f g : RefreshTokenFamily) (id : Uuid) (now : Time)
    → WellFormed f
    → (r : Rotation f g id now) → last_of f.tokens ≡ some r.presented
Rotation-last f g id now w r =
    let whole = rw r.found.split at w.chain in
    let end = IsChain-unused none r.found.front r.presented r.found.back whole r.rotatable.fresh in
    rw (r.found.split, end) (last_of-snoc r.found.front r.presented)

-- In any state of a well-formed family at most one token identifier can be rotated: two calls that
-- would both succeed, at whatever times and with whatever next tokens, present the same one.
pub rotate_single_use :
    (f : RefreshTokenFamily) (a b : Uuid) (next next' : NextToken) (now now' : Time)
    → WellFormed f
    → (rotate f a next now).1 ≡ ok rotated
    → (rotate f b next' now').1 ≡ ok rotated
    → a ≡ b
rotate_single_use f a b next next' now now' w p q =
    let r = rotate-Rotation f a next now w p in
    let r' = rotate-Rotation f b next' now' w q in
    let same = sym (Rotation-last f _ a now w r) ∙ Rotation-last f _ b now' w r' in
    cc (same, r.found.same_id, r'.found.same_id)
