-- ===== src/Auth.antt =====
-- packages/auth: roles, the permissions of groups, and the checks that use them.
pub mod Roles
pub mod Checker
mod Tests
