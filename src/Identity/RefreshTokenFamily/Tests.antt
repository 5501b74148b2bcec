-- ===== src/Identity/RefreshTokenFamily/Tests.antt =====
-- A family with one token, rotated at 200; its first token is presented again at 300.
use careeria.Base.{◌≡◌, refl, is_some, false, none, some, [], ◌∷◌, arith, ok, err}
use careeria.Base.Text.{codes}
use careeria.Domain.{normalize_optional_text}
use careeria.Identity.RefreshTokenFamily.Errors.{token_not_found}
use careeria.Identity.RefreshTokenFamily.Token.{
  RefreshToken, new_refresh_token, validate_for_rotation, mark_rotated, token_changed_at,
}
use careeria.Identity.RefreshTokenFamily.Invariant.{WellFormed, new-WellFormed}
use careeria.Identity.RefreshTokenFamily.Safety.{}
use careeria.Identity.RefreshTokenFamily.SingleUse.{rotate_single_use}
use careeria.Identity.RefreshTokenFamily.Reuse.{
  AllRevoked, rotate_replay, rotates, run, step, new-run_family-WellFormed,
}
use careeria.Identity.RefreshTokenFamily.{
  RefreshTokenFamily, NextToken, rotated, reuse_detected, new, rotate, rotate_presented, issue_next,
  token_index, has_token_hash, ensure_rotation_allowed, family_changed_at,
}

abbrev first_token : RefreshToken
first_token = record {
  id = 10;
  parent_token_id = none;
  hash = codes "a";
  created_from_ip = none;
  created_user_agent = none;
  issued_at = 100;
  expires_at = 1000;
  rotated_at = none;
  revoked_at = none;
  revoke_reason = none;
  reuse_detected_at = none;
}

abbrev family : RefreshTokenFamily
family = record {
  id = 1;
  session_id = 2;
  tokens = first_token ∷ [];
  created_at = 100;
  last_rotated_at = none;
  absolute_expires_at = 5000;
  reuse_detected_at = none;
  revoked_at = none;
  revoke_reason = none;
}

abbrev second : NextToken
second = record {
  token_id = 11;
  token_hash = codes "b";
  token_expires_at = 2000;
  from_ip = none;
  user_agent = none;
}

abbrev third : NextToken
third = record second { token_id = 12; token_hash = codes "c" }

family_made : new 1 2 10 (codes "a") 1000 5000 none none 100 ≡ ok family
unfolding new new_refresh_token normalize_optional_text
family_made = refl

family-WellFormed : WellFormed family
family-WellFormed = new-WellFormed 1 2 10 (codes "a") 1000 5000 none none 100 family_made

first_rotated : (rotate family 10 second 200).1 ≡ ok rotated
unfolding rotate rotate_presented issue_next token_index has_token_hash ensure_rotation_allowed
    new_refresh_token validate_for_rotation mark_rotated token_changed_at family_changed_at
first_rotated = refl

rotated_later : (rotate family 10 third 300).1 ≡ ok rotated
unfolding rotate rotate_presented issue_next token_index has_token_hash ensure_rotation_allowed
    new_refresh_token validate_for_rotation mark_rotated token_changed_at family_changed_at
rotated_later = refl

unknown_refused : (rotate family 99 second 200).1 ≡ err token_not_found
unfolding rotate token_index ensure_rotation_allowed family_changed_at
unknown_refused = refl

abbrev twice_rotated : RefreshTokenFamily
twice_rotated = run (rotate family 10 second 200).0 (rotates 11 third 250 ∷ [])

twice_rotated_at : family_changed_at twice_rotated ≡ 250
unfolding run rotate step token_index has_token_hash ensure_rotation_allowed family_changed_at
    rotate_presented issue_next new_refresh_token validate_for_rotation mark_rotated
    token_changed_at normalize_optional_text
twice_rotated_at = refl

rotate_replay_example :
    AllRevoked (rotate twice_rotated 10 third 300).0
    × (is_some twice_rotated.revoked_at ≡ false
        → (rotate twice_rotated 10 third 300).1 ≡ ok reuse_detected)
rotate_replay_example =
    rotate_replay family 10 second third 200 300 (rotates 11 third 250 ∷ []) family-WellFormed
      first_rotated (omega (arith, twice_rotated_at)) (omega arith)

rotate_single_use_example : first_token.id ≡ first_token.id
rotate_single_use_example =
    rotate_single_use family 10 10 second third 200 300 family-WellFormed first_rotated
      rotated_later

abbrev revoked_family_example : RefreshTokenFamily
revoked_family_example = record family { revoked_at = some 150; revoke_reason = some (codes "x") }

new-run_family-WellFormed_example :
    WellFormed (run family (rotates 10 second 200 ∷ rotates 10 third 300 ∷ []))
new-run_family-WellFormed_example =
    new-run_family-WellFormed 1 2 10 (codes "a") 1000 5000 none none 100 family
      (rotates 10 second 200 ∷ rotates 10 third 300 ∷ []) family_made
