-- ===== src/Orchestrator.antt =====
-- The orchestrator of task sessions (backend/app/services/orchestrator.py) with the services that it
-- calls on its own state.
pub mod Desk
pub mod Memory
pub mod Moves
pub mod Telemetry
pub mod Planner
pub mod Decide
pub mod Outcome
pub mod Guide
pub mod Begin
pub mod Action
pub mod Confirm
pub mod Handlers
pub mod Events
pub mod Delivery
pub mod Dismissal
pub mod Requests
pub mod Walk
