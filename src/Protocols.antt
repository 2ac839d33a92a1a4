-- ===== src/Protocols.antt =====
-- internal/services/aws/protocols: the answers of the AWS services.
pub mod Errors
