-- ===== src/Iac.antt =====
-- packages/iac: the compliance of device configurations.
pub mod Compliance
mod Tests
