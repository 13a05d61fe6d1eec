-- ===== src/Contracts/Skill.antt =====
-- A learned routine and its steps (backend/app/contracts/models.py).
use web_accessible.Prelude.{nat_eq, Text, text_eq, ℕ, Bool, Option, List}
use web_accessible.Contracts.Element.{SelectorBundle, VerificationPredicate}

pub data SkillOutcome : Type 0 where
  completed prepared : SkillOutcome

pub record RepairRecord : Type 0 where
  pub repaired_at : ℕ
  pub source_revision : ℕ
  pub reason : Text

pub record SkillStep : Type 0 where
  pub step_id : ℕ
  pub instruction : Text
  pub selectors : SelectorBundle
  pub preconditions : List VerificationPredicate
  pub expected_transition : VerificationPredicate
  pub timeout_seconds : ℕ
  pub irreversible : Bool
  pub irreversible_description : Option Text
  pub amount_source : Option Text
  pub repair_history : List RepairRecord

pub record SkillDocument : Type 0 where
  pub skill_key : ℕ
  pub revision : ℕ
  pub name : Text
  pub start_url : Text
  pub allowed_origins : List Text
  pub source_session_id : ℕ
  pub task_outcome : SkillOutcome
  pub steps : List SkillStep
  pub provider_skill_id : Option Text
  pub provider_case_ids : List Text
  pub created_at : ℕ
