-- ===== src/Skill/Repair/Revision.antt =====
-- A repair touches one step and leaves a trace (backend/app/services/repair.py).
use web_accessible.Prelude.{nat_eq, text_eq}
use web_accessible.Skill.Repair.{is_repair_record, is_repair_record}
