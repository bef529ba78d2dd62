-- ===== src/Approval.antt =====
-- packages/core/approval/src/domain/approval.ts: the approval engine.
pub mod Types
pub mod Policy
pub mod Authority
pub mod Steps
pub mod Instance
pub mod Methods
pub mod Activation
pub mod Invariant
pub mod Preservation
pub mod Reach
pub mod Permission
pub mod Effects
pub mod Terminal
pub mod ValidLine
mod Tests
