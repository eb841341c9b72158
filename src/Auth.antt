-- ===== src/Auth.antt =====
-- modules/auth: which tokens are good.
pub mod TokenStore
pub mod Revocations
pub mod Sessions
pub mod Rotation
pub mod Lasting
