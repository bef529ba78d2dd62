-- ===== src/Inspection.antt =====
-- packages/features/quality/src/domain/inspection.ts: checklists, sealed attempts and the state
-- machine of inspections.
pub mod Types
pub mod Percent
pub mod Checklist
pub mod Sealing
pub mod Machine
pub mod Methods
pub mod Weights
pub mod Tallying
pub mod Disposal
pub mod Sealed
pub mod Initial
pub mod Graph
pub mod Lifecycle
pub mod Stamped
pub mod Failing
pub mod Shape
pub mod Invariant
pub mod Log
pub mod Failures
mod Tests
pub mod Places
pub mod Rounding
pub mod RoundTrip
