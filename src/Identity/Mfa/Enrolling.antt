-- ===== src/Identity/Mfa/Enrolling.antt =====
-- `EnrollTOTP` and `EnrollWebAuthn` of services/identity/internal/domain/mfa/mfa.go.
use careeria.Base.{◌≡◌, refl, Bool, true, false, Option, some, List, arith, is_some, ok}
use careeria.Base.Guards.{guarded, checked, settled}
use careeria.Base.Int.{ℤ}
use careeria.Base.Text.{Text}
use careeria.Domain.{Time, Uuid}
use careeria.Identity.Mfa.Types.{Error, Bytes, TotpAlgorithm, totp, web_authn}
use careeria.Identity.Mfa.Factors.{Factor, new_totp_factor, new_web_authn_factor}
use careeria.Identity.Mfa.Keeping.{credential_key}
use careeria.Identity.Mfa.Outcomes.{Outcome, refuses, enrols}
use careeria.Identity.Mfa.{
  Mfa, factor_index, enabled_totp, has_enabled_totp, has_credential, ensure_change_allowed, enrol,
  enroll_totp, enroll_web_authn,
}

enrol-Outcome :
    (m : Mfa) (f : Factor) (taken : Bool) (e : Error)
    → f.is_primary ≡ false
    → (enabled_totp f ≡ true → taken ≡ has_enabled_totp m)
    → ((key : Bytes) → credential_key f ≡ some key → taken ≡ has_credential key m.factors)
    → Outcome m (enrol m f taken e)
unfolding enrol
enrol-Outcome m f taken e secondary only key =
    guarded (Outcome m) (is_some (factor_index m f.id)) _ _ refuses (λ absent.
      guarded (Outcome m) taken _ _ refuses (λ free. enrols (record {
        absent = absent;
        secondary = secondary;
        only_totp = λ h. cc (only h);
        new_key = λ k h. cc (key k h);
      })))

new_totp_factor_lem :
    (id : Uuid) (name : Option Text) (secret : Bytes) (key_ref : Text) (algorithm : TotpAlgorithm)
    (digits period : ℤ) (now : Time) (f : Factor)
    → new_totp_factor id name secret key_ref algorithm digits period now ≡ ok f
    → (f.is_primary ≡ false) × (f.type_of ≡ totp)
unfolding new_totp_factor
new_totp_factor_lem id name secret key_ref algorithm digits period now f h = ground arith

new_web_authn_factor_lem :
    (id : Uuid) (name : Option Text) (credential_id public_key : Bytes) (sign_count : ℤ)
    (aaguid : Option Uuid) (transports : List Text) (eligible state : Bool) (now : Time)
    (f : Factor)
    → new_web_authn_factor id name credential_id public_key sign_count aaguid transports eligible
        state now
      ≡ ok f
    → (f.is_primary ≡ false) × (f.type_of ≡ web_authn) × (credential_key f ≡ some credential_id)
unfolding new_web_authn_factor
new_web_authn_factor_lem id name credential_id public_key sign_count aaguid transports eligible
      state now f h =
    ground arith

same :
    (m : Mfa) (k credential_id : Bytes)
    → credential_id ≡ k
    → has_credential credential_id m.factors ≡ has_credential k m.factors
same m k credential_id e = rw e

module _ (m : Mfa) (id : Uuid) (name : Option Text) (now : Time) where
  pub enroll_totp-Outcome :
      (secret : Bytes) (key_ref : Text) (algorithm : TotpAlgorithm) (digits period : ℤ)
      → Outcome m (enroll_totp m id name secret key_ref algorithm digits period now)
  unfolding enroll_totp
  enroll_totp-Outcome secret key_ref algorithm digits period =
      checked (Outcome m) (ensure_change_allowed m now) _ _ (λ e. refuses)
        (λ timely.
          settled (Outcome m) (new_totp_factor id name secret key_ref algorithm digits period now) _
            _ (λ e. refuses)
            (λ f made.
              let (secondary, typed) =
                new_totp_factor_lem id name secret key_ref algorithm digits period now f made in
              enrol-Outcome m f (has_enabled_totp m) _ secondary (λ h. refl)
                (λ k h. absurd (ground arith))))

  pub enroll_web_authn-Outcome :
      (credential_id public_key : Bytes) (sign_count : ℤ) (aaguid : Option Uuid)
      (transports : List Text) (eligible state : Bool)
      → Outcome m (
          enroll_web_authn m id name credential_id public_key sign_count aaguid transports eligible
            state now)
  unfolding enroll_web_authn
  enroll_web_authn-Outcome credential_id public_key sign_count aaguid transports eligible state =
      checked (Outcome m) (ensure_change_allowed m now) _ _ (λ e. refuses)
        (λ timely.
          settled (Outcome m)
            (new_web_authn_factor id name credential_id public_key sign_count aaguid transports
              eligible state now)
            _ _ (λ e. refuses)
            (λ f made.
              let (secondary, typed, key) =
                new_web_authn_factor_lem id name credential_id public_key sign_count aaguid
                  transports eligible state now f made in
              enrol-Outcome m f (has_credential credential_id m.factors) _ secondary
                (λ h. absurd (ground arith)) (λ k h. same m k credential_id (cc))))
