-- ===== src/Contracts.antt =====
-- The wire contracts that several components share (backend/app/contracts/models.py).
pub mod Json
pub mod State
pub mod Element
pub mod Event
pub mod Command
pub mod Skill
