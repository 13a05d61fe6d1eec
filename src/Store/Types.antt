-- ===== src/Store/Types.antt =====
-- The tables of the store and the views that its rows are read as
-- (backend/app/persistence/repository.py, backend/app/contracts/models.py). A JSON column is held as
-- the value that it was written from. The index columns of a session stand beside its payload.
use web_accessible.Prelude.{nat_eq, Text, text_eq, Dict, ℕ, Bool, Option, List}
use web_accessible.Contracts.State.{SessionMode, SessionState, GuidanceMode, SyncState}
use web_accessible.Contracts.Event.{EventEnvelope}
use web_accessible.Contracts.Skill.{SkillStep}
use web_accessible.Contracts.Json.{Payload}

pub record SessionView : Type 0 where
  pub id : ℕ
  pub user_id : Text
  pub participant_session_id : ℕ
  pub mode : SessionMode
  pub state : SessionState
  pub state_version : ℕ
  pub task_name : Text
  pub task_intent : Text
  pub start_url : Text
  pub skill_id : Option Text
  pub skill_revision : Option ℕ
  pub browserbase_session_id : Option Text
  pub browser_status : Text
  pub current_instruction : Option Text
  pub guidance_mode : GuidanceMode
  pub current_step_index : ℕ
  pub total_steps : Option ℕ
  pub safety_message : Option Text
  pub terminal_message : Option Text
  pub amount : Option Text
  pub currency : Option Text
  pub sync_state : SyncState
  pub repair_attempts : ℕ
  pub created_at : ℕ
  pub updated_at : ℕ

pub data EscalationStatus : Type 0 where
  pending delivered delivery_failed acknowledged resolved : EscalationStatus

pub record EscalationView : Type 0 where
  pub id : ℕ
  pub session_id : ℕ
  pub user_id : Text
  pub reason : Text
  pub status : EscalationStatus
  pub caregiver_note : Option Text
  pub caregiver_name : Option Text
  pub created_at : ℕ
  pub updated_at : ℕ

-- The preferences that the backend reads from `preferences_json`.
pub record Preferences : Type 0 where
  pub activity_memory_enabled : Bool
  pub proactive_reminders_enabled : Bool
  pub timezone : Text

pub record ParticipantRow : Type 0 where
  pub user_id : Text
  pub role : Text
  pub participant_name : Text
  pub preferences : Preferences
  pub expires_at : ℕ
  pub created_at : ℕ

pub record SessionRow : Type 0 where
  pub user_id : Text
  pub participant_session_id : ℕ
  pub state : SessionState
  pub state_version : ℕ
  pub payload : SessionView
  pub created_at : ℕ
  pub updated_at : ℕ

pub record EventRow : Type 0 where
  pub session_id : ℕ
  pub page_instance_id : ℕ
  pub sequence_no : ℕ
  pub payload : EventEnvelope
  pub occurred_at : ℕ
  pub accepted_at : ℕ

pub record StepRow : Type 0 where
  pub session_id : ℕ
  pub step_no : ℕ
  pub step : SkillStep
  pub created_at : ℕ

pub record BrowserRow : Type 0 where
  pub provider_session_id : Text
  pub start_url : Text
  pub status : Text
  pub created_at : ℕ
  pub attached_at : Option ℕ
  pub stopped_at : Option ℕ
  pub terminal_reason : Option Text

pub data OutboxStatus : Type 0 where
  pending synced failed : OutboxStatus

pub record OutboxRow : Type 0 where
  pub id : ℕ
  pub kind : Text
  pub stable_key : Text
  pub payload : Payload
  pub status : OutboxStatus
  pub attempts : ℕ
  pub last_error_code : Option Text
  pub created_at : ℕ
  pub updated_at : ℕ

pub record ActivityRow : Type 0 where
  pub user_id : Text
  pub session_id : ℕ
  pub task_id : Text
  pub task_name : Text
  pub activity_type : Text
  pub origin : Option Text
  pub outcome : Option Text
  pub occurred_at : ℕ
  pub timezone : Text
  pub local_weekday : ℕ
  pub local_minute : ℕ
  pub details : Payload
  pub memory_sync_state : SyncState

pub record ReminderRow : Type 0 where
  pub task_id : Text
  pub status : Text
  pub acted_at : ℕ
  pub snoozed_until : Option ℕ

-- The tables that the modelled operations read or write, by primary key.
pub record Store : Type 0 where
  pub participants : Dict ℕ ParticipantRow
  pub sessions : Dict ℕ SessionRow
  pub events : Dict ℕ EventRow
  pub steps : List StepRow
  pub browsers : Dict ℕ BrowserRow
  pub model_calls : Dict ℕ Payload
  pub escalations : List EscalationView
  pub outbox : List OutboxRow
  pub cooldowns : Dict Text (Dict Text ℕ)
  pub activities : Dict Text ActivityRow
  pub reminders : Dict Text (Dict Text ReminderRow)
