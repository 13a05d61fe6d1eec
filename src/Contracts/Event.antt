-- ===== src/Contracts/Event.antt =====
-- Observed events (backend/app/contracts/models.py). Of the payload, a JSON object, the entries that a
-- decision reads are fields: `is True` and truth tests are Booleans, and the size of a scroll is held
-- in thousandths of a viewport. The entries that are only passed on to telemetry stay in a dict.
use web_accessible.Prelude.{
  Comparable, nat_eq, eq_of_discrete, Text, text_eq, ℕ, Bool, Option, codes,
}
use web_accessible.Contracts.Element.{ElementCandidate}
use web_accessible.Contracts.Json.{Payload}

pub data EventType : Type 0 where
  session_started page_observed navigation_observed interaction_observed : EventType
  form_progress_observed help_requested guidance_presented guidance_dismissed : EventType
  target_resolved user_action_observed verification_observed task_abandoned session_ended :
      EventType

unfoldable pub EventType-discrete : Discrete EventType
EventType-discrete = hlevel

instance abbrev pub event_type_eq : Comparable EventType
event_type_eq = eq_of_discrete EventType-discrete

pub record EventPayload : Type 0 where
  pub known_route_departure : Bool
  pub partly_filled : Bool
  pub sensitive : Bool
  pub productive : Bool
  pub verified : Bool
  pub is_scroll : Bool
  pub viewport_delta : ℕ
  pub wrong_click : Bool
  pub candidate : Option (Option ElementCandidate)
  pub css_path : Option Text
  pub entries : Payload

-- The identifiers are opaque numbers.
pub record EventEnvelope : Type 0 where
  pub event_id : ℕ
  pub session_id : ℕ
  pub user_id : Text
  pub browserbase_session_id : Text
  pub page_id : Text
  pub page_instance_id : ℕ
  pub sequence_no : ℕ
  pub occurred_at : ℕ
  pub origin : Text
  pub redacted_path : Text
  pub event_type : EventType
  pub payload : EventPayload

-- The values of `EventType`.
unfoldable pub event_type_value : EventType → Text
event_type_value EventType.session_started = codes "session_started"
event_type_value EventType.page_observed = codes "page_observed"
event_type_value EventType.navigation_observed = codes "navigation_observed"
event_type_value EventType.interaction_observed = codes "interaction_observed"
event_type_value EventType.form_progress_observed = codes "form_progress_observed"
event_type_value EventType.help_requested = codes "help_requested"
event_type_value EventType.guidance_presented = codes "guidance_presented"
event_type_value EventType.guidance_dismissed = codes "guidance_dismissed"
event_type_value EventType.target_resolved = codes "target_resolved"
event_type_value EventType.user_action_observed = codes "user_action_observed"
event_type_value EventType.verification_observed = codes "verification_observed"
event_type_value EventType.task_abandoned = codes "task_abandoned"
event_type_value EventType.session_ended = codes "session_ended"
