-- ===== src/Identity/Mfa/Recording.antt =====
-- `RecordTOTPUse` and `RecordWebAuthnUse` of services/identity/internal/domain/mfa: factor.go,
-- totp.go and webauthn.go.
use careeria.Base.{◌≡◌, refl, Bool, false, not, ◌&&◌, ◌||◌, Option, none, some, arith, is_some}
use careeria.Base.Guards.{guarded, checked}
use careeria.Base.Int.{ℤ, pos, int_leb}
use careeria.Domain.{Time, is_zero, before}
use careeria.Identity.Mfa.Types.{Error, FactorType, totp, web_authn}
use careeria.Identity.Mfa.Totp
use careeria.Identity.Mfa.Totp.{Totp, replays}
use careeria.Identity.Mfa.WebAuthn
use careeria.Identity.Mfa.WebAuthn.{WebAuthnCredential, latest_changed_at}
use careeria.Identity.Mfa.Factors.{
  Factor, ensure_usable, is_totp, is_web_authn, use_totp, record_totp_use, use_web_authn,
  record_web_authn_use,
}
use careeria.Identity.Mfa.Keeping.{
  Behind, Behind-refl, key_of, step_of, last_step, count_of, sign_count, Advances,
}

Behind-new : (last : Option ℤ) (value : ℤ) → replays value last ≡ false → Behind last (some value)
Behind-new none value h = tt
Behind-new (some last) value h = ground arith

abbrev UsedTotp : Option Totp → ℤ → Option Totp × Option Error → Type 0
UsedTotp o step (o', some e) = o' ≡ o
UsedTotp o step (o', none) =
    (is_some o' ≡ is_some o) × (step_of o' ≡ some step) × (replays step (step_of o) ≡ false)

use_totp-UsedTotp :
    (o : Option Totp) (step : ℤ) (now : Time) → UsedTotp o step (use_totp o step now)
unfolding use_totp Totp.record_use
use_totp-UsedTotp none step now = refl
use_totp-UsedTotp (some t) step now =
    let P = λ (r : Totp × Option Error). UsedTotp (some t) step (some r.0, r.1) in
    guarded P (is_zero now || before now t.updated_at) _ _ refl (λ timely.
      guarded P (not (int_leb (pos 0) step)) _ _ refl (λ valid.
        guarded P (replays step t.last_used_time_step) _ _ refl (λ new. (refl, refl, new))))

module _ (f : Factor) (p t : Bool) (now : Time) where
  abbrev pub RecordedTotp : ℤ → Factor × Option Error → Type 0
  RecordedTotp step (f', some e) = f' ≡ f
  RecordedTotp step (f', none) =
      Advances f f' p t × (last_step f' ≡ some step) × (replays step (last_step f) ≡ false)

  pub record_totp_use-RecordedTotp : (step : ℤ) → RecordedTotp step (record_totp_use f step now)
  unfolding record_totp_use
  record_totp_use-RecordedTotp step =
      checked (RecordedTotp step) (ensure_usable (is_totp f) f now) _ _ (λ e. refl)
        (λ usable. go (use_totp f.totp_config step now) (use_totp-UsedTotp f.totp_config step now))
    where
      go :
          (r : Option Totp × Option Error)
          → UsedTotp f.totp_config step r
          → RecordedTotp step (elim r.1 [
            | some e ↦ (record f { totp_config = r.0 }, some e)
            | none ↦
                (record f { totp_config = r.0; last_used_at = some now; updated_at = now }, none)
          ])
      go (o, some e) h = rw h
      go (o, none) h = (
        record {
          persists = record {
            same_id = refl;
            same_key = refl;
            same_totp = rw h.0;
            steps = rw h.1 (Behind-new (last_step f) step h.2);
            counts = Behind-refl (sign_count f);
            confirmed = λ k. k;
          };
          sound = λ k. k;
          primary = λ k. ground arith;
          enabled_totp = λ k. ground arith;
        },
        h.1,
        h.2,
      )

-- The test that reports a counter that does not go up; a counter of 0 is not in use.
abbrev pub rolls_back : ℤ → Option ℤ → Bool
rolls_back value none = false
rolls_back value (some last) = not (int_leb last (pos 0)) && int_leb value last

-- What an accepted use leaves of a credential.
record Counted (o o' : Option WebAuthnCredential) (value : ℤ) : Type 0 where
  same_key : (type_of : FactorType) → key_of type_of o' ≡ key_of type_of o
  grows : Behind (count_of o) (count_of o')
  reaches : Behind (some value) (count_of o')
  forward : rolls_back value (count_of o) ≡ false

abbrev UsedKey : Option WebAuthnCredential → ℤ → Option WebAuthnCredential × Option Error → Type 0
UsedKey o value (o', some e) = o' ≡ o
UsedKey o value (o', none) = Counted o o' value

same-key :
    (c c' : WebAuthnCredential)
    → c'.credential_id ≡ c.credential_id
    → (type_of : FactorType) → key_of type_of (some c') ≡ key_of type_of (some c)
same-key c c' e totp = refl
same-key c c' e web_authn = cc

use_web_authn-UsedKey :
    (o : Option WebAuthnCredential) (value : ℤ) (backup : Bool) (now : Time)
    → UsedKey o value (use_web_authn o value backup now)
unfolding use_web_authn WebAuthn.record_use
use_web_authn-UsedKey none value backup now = refl
use_web_authn-UsedKey (some c) value backup now =
    let P = λ (r : WebAuthnCredential × Option Error). UsedKey (some c) value (some r.0, r.1) in
    guarded P (is_zero now || before now (latest_changed_at c)) _ _ refl (λ timely.
      guarded P (not (int_leb (pos 0) value)) _ _ refl (λ valid.
        guarded P (rolls_back value (some c.sign_count)) _ _ refl (λ fresh.
          guarded P (backup && not c.backup_eligible) _ _ refl (λ eligible. record {
            same_key = same-key c _ refl;
            grows = ground arith;
            reaches = ground arith;
            forward = fresh;
          }))))

module _ (f : Factor) (p t : Bool) (now : Time) where
  abbrev pub RecordedCount : ℤ → Factor × Option Error → Type 0
  RecordedCount value (f', some e) = f' ≡ f
  RecordedCount value (f', none) =
      Advances f f' p t
      × Behind (some value) (sign_count f')
      × (rolls_back value (sign_count f) ≡ false)

  pub record_web_authn_use-RecordedCount :
      (value : ℤ) (backup : Bool) → RecordedCount value (record_web_authn_use f value backup now)
  unfolding record_web_authn_use
  record_web_authn_use-RecordedCount value backup =
      checked (RecordedCount value) (ensure_usable (is_web_authn f) f now) _ _ (λ e. refl)
        (λ usable.
          go (use_web_authn f.credential value backup now)
            (use_web_authn-UsedKey f.credential value backup now))
    where
      go :
          (r : Option WebAuthnCredential × Option Error)
          → UsedKey f.credential value r
          → RecordedCount value (elim r.1 [
            | some e ↦ (record f { credential = r.0 }, some e)
            | none ↦
                (record f { credential = r.0; last_used_at = some now; updated_at = now }, none)
          ])
      go (o, some e) h = rw h
      go (o, none) h = (
        record {
          persists = record {
            same_id = refl;
            same_key = h.same_key f.type_of;
            same_totp = refl;
            steps = Behind-refl (last_step f);
            counts = h.grows;
            confirmed = λ k. k;
          };
          sound = λ k. k;
          primary = λ k. ground arith;
          enabled_totp = λ k. ground arith;
        },
        h.reaches,
        h.forward,
      )
