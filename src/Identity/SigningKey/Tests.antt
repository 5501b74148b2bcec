-- ===== src/Identity/SigningKey/Tests.antt =====
-- A key that signs, begins to retire and still verifies.
use careeria.Base.{◌≡◌, refl, none, some, List, [], ◌∷◌, arith}
use careeria.Base.Text.{codes}
use careeria.Domain.{Time}
use careeria.Identity.SigningKey.{
  SigningKey, es256, active, validate_for_signing, validate_for_verification,
}
use careeria.Identity.SigningKey.Rotation.{Call, activates, starts_retirement, run, signed_verifies}

abbrev key : SigningKey
key = record {
  id = 1;
  key_id = codes "k1";
  algorithm = es256;
  public_jwk = codes "{}";
  private_key_ref = codes "vault:k1";
  status = active;
  created_at = 10;
  not_before = 20;
  expires_at = some 1000;
  activated_at = some 30;
  retiring_at = none;
  retired_at = none;
  compromised_at = none;
}

abbrev calls : List (Call × Time)
calls = (activates, 60) ∷ (starts_retirement, 100) ∷ []

key_signs : validate_for_signing key 50 ≡ none
unfolding validate_for_signing
key_signs = refl

signed_verifies_example : validate_for_verification (run key calls) 900 ≡ none
signed_verifies_example =
    signed_verifies key calls 50 900 key_signs (omega arith) refl
      ((tt, omega arith), ((tt, omega arith), tt))
