-- ===== src/Deals.antt =====
-- The deals of the shop: deals/deals.service.ts and deals/deal-status-transitions.ts.
pub mod Status
pub mod Pricing
pub mod Creation
pub mod StatusChange
pub mod Stocks
pub mod Reservation
pub mod Ledger
pub mod CreateLedger
pub mod ChangeLedger
pub mod History
mod Tests
