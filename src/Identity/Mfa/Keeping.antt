-- ===== src/Identity/Mfa/Keeping.antt =====
-- What one method of services/identity/internal/domain/mfa/factor.go does to its factor.
use careeria.Base.{
  ◌≡◌, refl, Bool, true, false, not, ◌&&◌, ◌||◌, Option, none, some, arith, Result, ok, err,
}
use careeria.Base.Guards.{guarded, branched, checked}
use careeria.Base.Int.{ℤ, ◌≤ℤ◌}
use careeria.Base.Text.{Text}
use careeria.Domain.{Time, normalize_optional_text, equal_optional_text}
use careeria.Identity.Mfa.Types.{Error, Bytes, FactorType, totp, web_authn}
use careeria.Identity.Mfa.Totp.{Totp}
use careeria.Identity.Mfa.WebAuthn.{WebAuthnCredential}
use careeria.Identity.Mfa.Factors.{
  Factor, ensure_change_allowed, is_enabled, is_confirmed, is_totp, rename, confirm, demote,
  disable, enable,
}

-- The identifier of a WebAuthn factor's credential.
abbrev pub key_of : FactorType → Option WebAuthnCredential → Option Bytes
key_of web_authn (some c) = some c.credential_id
key_of web_authn none = none
key_of totp c = none

abbrev pub credential_key : Factor → Option Bytes
credential_key f = key_of f.type_of f.credential

abbrev pub step_of : Option Totp → Option ℤ
step_of none = none
step_of (some t) = t.last_used_time_step

abbrev pub last_step : Factor → Option ℤ
last_step f = step_of f.totp_config

abbrev pub count_of : Option WebAuthnCredential → Option ℤ
count_of none = none
count_of (some c) = some c.sign_count

abbrev pub sign_count : Factor → Option ℤ
sign_count f = count_of f.credential

-- The second value is there, and not below the first, where there is a first.
abbrev pub Behind : Option ℤ → Option ℤ → Type 0
Behind none b = Unit
Behind (some a) none = ⊥
Behind (some a) (some b) = a ≤ℤ b

pub Behind-refl : (a : Option ℤ) → Behind a a
Behind-refl none = tt
Behind-refl (some a) = omega arith

pub Behind-trans : (a b c : Option ℤ) → Behind a b → Behind b c → Behind a c
Behind-trans none b c h k = tt
Behind-trans (some a) none c h k = absurd h
Behind-trans (some a) (some b) none h k = absurd k
Behind-trans (some a) (some b) (some c) h k = omega arith

-- What no method changes, and what only goes up.
pub record Persists (f f' : Factor) : Type 0 where
  pub same_id : f'.id ≡ f.id
  pub same_key : credential_key f' ≡ credential_key f
  pub same_totp : is_totp f' ≡ is_totp f
  pub steps : Behind (last_step f) (last_step f')
  pub counts : Behind (sign_count f) (sign_count f')
  pub confirmed : is_confirmed f ≡ true → is_confirmed f' ≡ true

pub Persists-refl : (f : Factor) → Persists f f
Persists-refl f = record {
  same_id = refl;
  same_key = refl;
  same_totp = refl;
  steps = Behind-refl (last_step f);
  counts = Behind-refl (sign_count f);
  confirmed = λ h. h;
}

-- A primary factor is enabled and confirmed.
abbrev pub Sound : Factor → Type 0
Sound f = f.is_primary ≡ true → (is_enabled f ≡ true) × (is_confirmed f ≡ true)

-- A change of one factor, where it may become primary, or an enabled TOTP factor, only if the
-- tests say so.
pub record Advances (f f' : Factor) (may_be_primary may_be_totp : Bool) : Type 0 where
  pub persists : Persists f f'
  pub sound : Sound f → Sound f'
  pub primary : f'.is_primary ≡ true → (f.is_primary || may_be_primary) ≡ true
  pub enabled_totp :
      (is_totp f' && is_enabled f') ≡ true → ((is_totp f && is_enabled f) || may_be_totp) ≡ true

-- A method that refuses leaves the factor alone.
abbrev pub Stepped : Factor → Bool → Bool → Factor × Option Error → Type 0
Stepped f p t (f', some e) = f' ≡ f
Stepped f p t (f', none) = Advances f f' p t

-- A change of the other fields.
pub Persists-plain :
    (f f' : Factor)
    → f'.id ≡ f.id
    → f'.type_of ≡ f.type_of
    → f'.totp_config ≡ f.totp_config
    → f'.credential ≡ f.credential
    → (is_confirmed f ≡ true → is_confirmed f' ≡ true)
    → Persists f f'
Persists-plain f f' same_id same_type same_totp same_credential confirmed = record {
  same_id = same_id;
  same_key = cc;
  same_totp = rw (same_type, same_totp);
  steps = rw same_totp (Behind-refl (last_step f));
  counts = rw same_credential (Behind-refl (sign_count f));
  confirmed = confirmed;
}

pub Advances-weaken : (f f' : Factor) (p t : Bool) → Advances f f' false false → Advances f f' p t
Advances-weaken f f' p t a = record {
  persists = a.persists;
  sound = a.sound;
  primary = λ h. ground (arith, a.primary h);
  enabled_totp = λ h. ground (arith, a.enabled_totp h);
}

module _ (f : Factor) (p t : Bool) (now : Time) where
  pub Advances-refl : Advances f f p t
  Advances-refl = record {
    persists = Persists-refl f;
    sound = λ h. h;
    primary = λ h. ground arith;
    enabled_totp = λ h. ground arith;
  }

  pub confirm-Stepped : Stepped f p t (confirm f p now)
  unfolding confirm
  confirm-Stepped =
      let P = Stepped f p t in
      checked P (ensure_change_allowed f now) _ _ (λ e. refl)
        (λ timely. guarded P (not (is_enabled f)) _ _ refl (λ on.
          branched P (is_confirmed f) _ _ (λ done. Advances-refl)
            (λ new. record {
              persists = Persists-plain f _ refl refl refl refl (λ h. refl);
              sound = λ h k. (ground arith, refl);
              primary = λ h. ground arith;
              enabled_totp = λ h. ground arith;
            })))

  pub disable-Stepped : Stepped f p t (disable f now)
  unfolding disable
  disable-Stepped =
      let P = Stepped f p t in
      checked P (ensure_change_allowed f now) _ _ (λ e. refl)
        (λ timely. guarded P (not (is_enabled f)) _ _ refl (λ on. record {
          persists = Persists-plain f _ refl refl refl refl (λ h. h);
          sound = λ h k. ground arith;
          primary = λ h. ground arith;
          enabled_totp = λ h. ground arith;
        }))

  pub enable-Stepped : (is_totp f ≡ true → t ≡ true) → Stepped f p t (enable f now)
  unfolding enable
  enable-Stepped free =
      let P = Stepped f p t in
      checked P (ensure_change_allowed f now) _ _ (λ e. refl)
        (λ timely.
          branched P (is_enabled f) _ _ (λ on. Advances-refl)
            (λ off. record {
              persists = Persists-plain f _ refl refl refl refl (λ h. h);
              sound = λ h k. (refl, (h k).1);
              primary = λ h. ground arith;
              enabled_totp = λ h. ground arith;
            }))

  pub demote-Stepped : Stepped f p t (demote f now)
  unfolding demote
  demote-Stepped =
      let P = Stepped f p t in
      branched P (not f.is_primary) _ _ (λ h. Advances-refl)
        (λ primary.
          checked P (ensure_change_allowed f now) _ _ (λ e. refl)
            (λ timely. record {
              persists = Persists-plain f _ refl refl refl refl (λ h. h);
              sound = λ h k. ground arith;
              primary = λ h. ground arith;
              enabled_totp = λ h. ground arith;
            }))

  -- The methods that return a Boolean.
  abbrev pub Answered : Factor × Result Error Bool → Type 0
  Answered (f', err e) = f' ≡ f
  Answered (f', ok changed) = Advances f f' p t

  pub rename-Answered : (name : Option Text) → Answered (rename f name now)
  unfolding rename
  rename-Answered name =
      let P = Answered in
      checked P (ensure_change_allowed f now) _ _ (λ e. refl)
        (λ timely.
          branched P (equal_optional_text f.name (normalize_optional_text name)) _ _
            (λ same. Advances-refl)
            (λ other. record {
              persists = Persists-plain f _ refl refl refl refl (λ h. h);
              sound = λ h. h;
              primary = λ h. ground arith;
              enabled_totp = λ h. ground arith;
            }))
