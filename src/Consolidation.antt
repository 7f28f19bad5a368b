-- ===== src/Consolidation.antt =====
-- services/consolidation: the balances that are built from the events of the Ledger.
pub mod Event
pub mod Contract
pub mod Query
pub mod Days
pub mod Projection
pub mod Store
pub mod Projector
pub mod Answer
pub mod Consumer
pub mod Reconciliation
pub mod DeadLetters
mod Tests
