-- ===== src/Payouts.antt =====
-- The payouts of the managers: payouts/payouts.service.ts.
pub mod Period
pub mod Generation
pub mod Approval
pub mod Evolution
pub mod States
pub mod Linking
pub mod Generated
pub mod Recalculated
pub mod Repeated
pub mod Visibility
pub mod Lifecycle
mod Tests
