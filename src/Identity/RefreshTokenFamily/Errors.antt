-- ===== src/Identity/RefreshTokenFamily/Errors.antt =====
-- The errors of services/identity/internal/domain/refreshtokenfamily: those of errors.go and
-- token.go, and one constructor for each `errors.New` in a method. A wrapped error
-- (`fmt.Errorf("…: %w", err)`) is the error that it wraps.

pub data Error : Type 0 where
  family_revoked family_expired : Error
  token_not_found token_revoked token_expired token_already_rotated : Error
  identifier_required session_invalid absolute_expiration_invalid initial_token_exceeds : Error
  token_identifier_invalid parent_identifier_invalid token_expiration_invalid : Error
  token_use_time_invalid token_not_rotated token_reuse_time_invalid : Error
  token_revocation_time_invalid token_reason_required : Error
  revoke_time_invalid reason_required rotation_time_invalid : Error
  next_identifier_exists next_hash_exists next_expiration_exceeds : Error
