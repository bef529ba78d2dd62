-- ===== src/Authorization.antt =====
-- packages/core/authorization/src/public.ts: the trusted contexts and the authorization decision.
pub mod Types
pub mod Trust
pub mod Session
pub mod Denials
pub mod Scope
pub mod Decision
pub mod Grants
pub mod Reach
pub mod Permission
pub mod Provenance
pub mod Current
mod Tests
