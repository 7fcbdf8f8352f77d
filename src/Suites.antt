-- ===== src/Suites.antt =====
-- The compiler of test suites (test-suites/execution-plan-compiler.service.ts).
pub mod Order
pub mod Flow
pub mod Validation
pub mod Steps
pub mod Compiler
pub mod Plan
pub mod Dependencies
pub mod Warnings
pub mod Yaml
mod Tests
