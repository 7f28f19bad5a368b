-- ===== src/Ledger/Tests.antt =====
-- Runs of the Ledger on concrete inputs.
pub mod Platform
mod Values
mod Service
mod Outbox
