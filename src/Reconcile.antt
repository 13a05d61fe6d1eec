-- ===== src/Reconcile.antt =====
-- The release of orphaned provider sessions (backend/app/services/browser_reconciliation.py).
pub mod Types
pub mod Classify
pub mod Judgement
pub mod Report
pub mod Release
pub mod Soundness
pub mod Budget
pub mod Totals
pub mod Worker
