-- ===== src/Auth.antt =====
-- app/auth: identities with their roles, the mapping of groups to roles, and the checks of the
-- routes.
pub mod Identity
pub mod Mapping
pub mod Security
pub mod Routes
