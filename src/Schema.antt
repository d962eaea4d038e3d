-- ===== src/Schema.antt =====
-- packages/schema_engine: the definitions of types, their registry, and its checks.
pub mod Models
pub mod Registry
pub mod Formats
pub mod Properties
pub mod Validation
pub mod Migration
mod Tests
