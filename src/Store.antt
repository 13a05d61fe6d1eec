-- ===== src/Store.antt =====
-- The operational store (backend/app/persistence/repository.py).
pub mod Table
pub mod Types
pub mod Sessions
pub mod Ledger
pub mod Browsers
pub mod Notices
pub mod Outbox
pub mod Columns
pub mod Steps
pub mod Once
pub mod Delivery
pub mod Activity
