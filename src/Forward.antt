-- ===== src/Forward.antt =====
-- What the proxy does to headers on the way to an application and back
-- (crates/ruscker-admin/src/routes/proxy.rs). A header map is a list of names with values, as text;
-- the names are in lower case, as the HTTP library keeps them.
pub mod Headers
pub mod Cookies
