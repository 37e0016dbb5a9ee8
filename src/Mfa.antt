-- ===== src/Mfa.antt =====
-- The second factor (crates/ruscker-admin/src/mfa.rs): the decision whether a browser's proof
-- satisfies an application, and recovery codes.
pub mod Decision
pub mod Codes
