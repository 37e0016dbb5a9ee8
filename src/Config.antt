-- ===== src/Config.antt =====
-- The configuration text before it is parsed (crates/ruscker-config/src/env.rs): references to the
-- environment are replaced, line by line, except in comments and secrets.
pub mod Variables
pub mod Lines
