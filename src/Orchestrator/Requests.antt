-- ===== src/Orchestrator/Requests.antt =====
-- What the participant's buttons and a batch of events ask of the orchestrator, and the tasks that it
-- leaves to run (backend/app/services/orchestrator.py).
use web_accessible.Prelude.{
  nat_eq, Text, codes, text_eq, is_nonempty, lookup, ℕ, ◌+◌, false, Option, none, some, List, [],
  ◌∷◌, ltb, if◌then◌else◌, ℤ, pos, negsuc,
}
use web_accessible.Contracts.Event.{EventEnvelope, EventPayload, EventType}
use web_accessible.Contracts.Command.{BackendCommand}
use web_accessible.Contracts.Json.{item, text}
use web_accessible.Store.Types.{SessionView}
use web_accessible.Store.Table.{order_by}
use web_accessible.Store.Ledger.{highest_sequence}
use web_accessible.Orchestrator.Desk.{
  Outside, M, Config, Task, ◌>>=◌, ◌>>◌, ret, need, done, reads, ask, call,
}
use web_accessible.Orchestrator.Moves.{require_session}
use web_accessible.Orchestrator.Begin.{begin_guidance, resume_after_reroute}
use web_accessible.Orchestrator.Handlers.{stop_browser}
use web_accessible.Orchestrator.Events.{handle_event}

abbrev plain_payload : EventPayload
plain_payload = record {
  known_route_departure = false;
  partly_filled = false;
  sensitive = false;
  productive = false;
  verified = false;
  is_scroll = false;
  viewport_delta = 0;
  wrong_click = false;
  candidate = none;
  css_path = none;
  entries = item "source" (text (codes "participant_button")) ∷ [];
}

-- `highest + 1`, which is never negative.
abbrev next_sequence : ℤ → ℕ
next_sequence (pos n) = n + 1
next_sequence (negsuc n) = 0

abbrev given : Option Text → Option Text
given none = none
given (some t) = if is_nonempty t then some t else none

-- `EventBatchAck`
pub record EventBatchAck : Type 0 where
  pub accepted_event_ids : List ℕ
  pub duplicate_event_ids : List ℕ
  pub highest_sequence_no : ℤ
  pub server_state_version : ℕ
  pub session : SessionView
  pub command : Option BackendCommand

module _ (o : Outside) (c : Config) where
  -- An event that the participant's button makes.
  unfoldable pub button_event : ℕ → EventType → M o (Unit {0})
  unfolding require_session highest_sequence handle_event
  button_event session_id kind = do
    page ← call (o.page_identity session_id)
    session ← require_session o session_id
    provider ← need (given session.browserbase_session_id)
    sequence ←
        reads (λ d. next_sequence (highest_sequence session_id page.page_instance_id d.store))
    fresh ← ask o.fresh
    now ← ask o.now
    new ← handle_event o c (record {
      event_id = fresh;
      session_id = session_id;
      user_id = session.user_id;
      browserbase_session_id = provider;
      page_id = page.page_id;
      page_instance_id = page.page_instance_id;
      sequence_no = sequence;
      occurred_at = now;
      origin = page.origin;
      redacted_path = page.path;
      event_type = kind;
      payload = plain_payload;
    })
    done

  -- `request_help`
  unfoldable pub request_help : ℕ → M o SessionView
  unfolding button_event require_session
  request_help session_id = do
    button_event session_id EventType.help_requested
    require_session o session_id

  -- `dismiss_guidance`
  unfoldable pub dismiss_guidance : ℕ → M o SessionView
  unfolding button_event require_session
  dismiss_guidance session_id = do
    button_event session_id EventType.guidance_dismissed
    cleared ← call (o.clear_highlight session_id)
    require_session o session_id

  -- The loop of `ingest_batch`: the accepted and the duplicate events in their order.
  unfoldable pub ingest : List EventEnvelope → M o (List ℕ × List ℕ)
  unfolding handle_event
  ingest [] = ret ([], [])
  ingest (e ∷ es) = do
    new ← handle_event o c e
    rest ← ingest es
    ret (if new then (e.event_id ∷ rest.0, rest.1) else (rest.0, e.event_id ∷ rest.1))

  abbrev highest : List EventEnvelope → ℤ
  highest [] = negsuc 0
  highest (e ∷ es) = elim (highest es) [
    | negsuc n ↦ pos e.sequence_no
    | pos m ↦ pos (if ltb m e.sequence_no then e.sequence_no else m)
  ]

  -- `ingest_batch`; the request holds at least one event, `first`.
  unfoldable pub ingest_batch : EventEnvelope → List EventEnvelope → M o EventBatchAck
  unfolding ingest order_by require_session
  ingest_batch first rest = do
    let events = first ∷ rest
    sorted ← ingest (order_by (λ (e : EventEnvelope). e.sequence_no) events)
    session ← require_session o first.session_id
    command ← reads (λ d. lookup session.id d.commands)
    ret (record {
      accepted_event_ids = sorted.0;
      duplicate_event_ids = sorted.1;
      highest_sequence_no = highest events;
      server_state_version = session.state_version;
      session = session;
      command = command;
    })

  -- A task that was left to run.
  unfoldable pub run_task : Task → M o (Unit {0})
  unfolding begin_guidance resume_after_reroute stop_browser
  run_task (Task.guide session_id reason) = begin_guidance o c session_id reason >>= λ v. done
  run_task (Task.resume session_id) = resume_after_reroute o c session_id
  run_task (Task.stop session_id reason) = stop_browser o c session_id reason >>= λ v. done
