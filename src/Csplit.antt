-- ===== src/Csplit.antt =====
-- The splitter of decompiled C code, internal/recipe/csplit.go.
pub mod Text
pub mod Outcomes
pub mod Names
pub mod Refs
pub mod Buckets
pub mod Splitter
pub mod Records
pub mod Split
mod Tests
