-- ===== src/Live.antt =====
-- What reaches an open app without being asked for (backend/app/services/event_hub.py,
-- backend/app/services/proactive.py).
pub mod Hub
pub mod Reminders
