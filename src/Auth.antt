-- ===== src/Auth.antt =====
-- How AWS requests are authenticated: internal/services/aws/auth.
pub mod SigV4
pub mod Credentials
pub mod Resolve
