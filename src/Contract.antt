-- ===== src/Contract.antt =====
-- packages/features/contract/src/domain/contract.ts: versions of contracts, and the state machine of
-- vendor contracts.
pub mod Types
pub mod Revision
pub mod Machine
pub mod Methods
pub mod Termination
pub mod Creation
pub mod Review
mod Tests
