-- ===== src/Payment.antt =====
-- packages/processes/vendor-acceptance-payment/src/domain/acceptance-payment.ts: the decision on the
-- payment for an accepted deliverable.
pub mod Types
pub mod Rate
pub mod Machine
pub mod Release
pub mod Restore
pub mod Amount
pub mod Restoring
pub mod Stored
pub mod Restored
pub mod Lifecycle
pub mod History
pub mod Early
pub mod Keeping
pub mod Rules
pub mod Holding
mod Tests
