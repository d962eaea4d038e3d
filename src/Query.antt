-- ===== src/Query.antt =====
-- packages/query_engine: the query AST, its validation against the schema, and its compilation.
pub mod Models
pub mod Slug
pub mod EdgeIndex
pub mod Paths
pub mod Validator
pub mod Compiler
pub mod Assembly
pub mod Pipeline
pub mod Listing
pub mod Sample
mod Tests
mod Examples
mod ReportExamples
pub mod Reports
