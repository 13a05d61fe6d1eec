-- ===== src/Skill.antt =====
-- Learned routines: recorded by demonstration, replayed, repaired one step at a time.
pub mod Replay
pub mod Repair
pub mod Recorder
