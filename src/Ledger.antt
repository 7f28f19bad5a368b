-- ===== src/Ledger.antt =====
-- The Ledger service (services/ledger): its domain values, use cases and PostgreSQL adapter.
pub mod Errors
pub mod Money
pub mod Identifier
pub mod Traceparent
pub mod Entry
pub mod Calendar
pub mod Tables
pub mod Store
pub mod Wire
pub mod Outbox
pub mod Service
pub mod Reader
mod Tests
