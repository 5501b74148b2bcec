-- ===== src/Identity.antt =====
-- services/identity: the domain packages.
pub mod Authentication
pub mod AuthenticationFlow
pub mod AuthorizationCode
pub mod AuthorizationGrant
pub mod AuthorizationTransaction
pub mod EmailChallenge
pub mod Identities
pub mod Mfa
pub mod Password
pub mod RefreshTokenFamily
pub mod RecoveryCodeSet
pub mod Session
pub mod SigningKey
