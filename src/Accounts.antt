-- ===== src/Accounts.antt =====
-- Who acts in the admin panel and on what: roles, the scope of an editor, and admin sessions
-- (crates/ruscker-admin/src/auth.rs, scope.rs).
pub mod Roles
pub mod Scope
pub mod AdminSessions
