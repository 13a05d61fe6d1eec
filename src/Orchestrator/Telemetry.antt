-- ===== src/Orchestrator/Telemetry.antt =====
-- What the orchestrator puts in the outbox (backend/app/services/orchestrator.py).
use web_accessible.Prelude.{
  ◌==◌, nat_eq, Text, codes, text_eq, is_space, is_nonempty, lower, lookup, remove, ℕ, Bool, true,
  false, ◌||◌, Option, none, some, List, [], ◌∷◌, ◌++◌, if◌then◌else◌, take,
}
use web_accessible.Url.{netloc}
use web_accessible.Contracts.State.{
  GuidanceMode, GuidanceMode-discrete, guidance_mode_eq, guidance_mode_value, mode_value,
}
use web_accessible.Contracts.Json.{
  Json, Payload, null, flag, number, text, ident, instant, item, entry, text_or_null,
  number_or_null,
}
use web_accessible.Contracts.Event.{
  EventEnvelope, EventType, EventType-discrete, event_type_eq, event_type_value,
}
use web_accessible.Store.Types.{SessionView}
use web_accessible.Store.Outbox.{enqueue}
use web_accessible.Orchestrator.Desk.{
  Outside, M, Config, Receipt, ◌>>=◌, ◌>>◌, done, on_store, ask, cond_m,
}

-- `text.split()`; `part` is what was read of the current word.
words : Text → Text → List Text
words part [] = if is_nonempty part then part ∷ [] else []
words part (c ∷ s) =
    let ended = words [] s in
    let longer = words (part ++ c ∷ []) s in
    if is_space c then (if is_nonempty part then part ∷ ended else ended) else longer

join_dashes : List Text → Text
join_dashes [] = []
join_dashes (w ∷ []) = w
join_dashes (w ∷ v ∷ ws) = w ++ (codes "-" ++ join_dashes (v ∷ ws))

-- `_stable_task_id`
unfoldable pub stable_task_id : Text → Text
unfolding words join_dashes lower
stable_task_id task_name = codes "task:" ++ take 96 (join_dashes (words [] (lower task_name)))

-- `session.skill_id or self._stable_task_id(session.task_name)`
unfoldable pub task_id_of : Option Text → Text → Text
unfolding stable_task_id
task_id_of none task_name = stable_task_id task_name
task_id_of (some skill) task_name = if is_nonempty skill then skill else stable_task_id task_name

-- `_terminal_provenance`
unfoldable pub terminal_provenance : Text → Text
terminal_provenance outcome =
    if outcome == codes "completed" || outcome == codes "prepared"
    then codes "deterministic_completion_predicate"
    else if outcome == codes "escalated"
    then codes "safety_or_repeat_failure"
    else codes "participant_or_session_stop"

abbrev case_of : Option Receipt → Option Text
case_of none = none
case_of (some r) = r.case_id

abbrev episode_of : Option Receipt → Option Text
episode_of none = none
episode_of (some r) = r.episode_id

module _ (o : Outside) (c : Config) where
  -- `self.repository.enqueue(…)`, under a fresh identifier at the clock's time.
  unfoldable pub send : Text → Text → Payload → M o (Unit {0})
  unfolding enqueue
  send kind stable_key payload = do
    fresh ← ask o.fresh
    now ← ask o.now
    on_store (enqueue fresh kind stable_key payload now)

  abbrev pub source : Text × Json
  source = item "source_environment" (text c.source_environment)

  -- `_enqueue_step_telemetry`
  unfoldable pub enqueue_step_telemetry : SessionView → EventEnvelope → M o (Unit {0})
  unfolding send task_id_of netloc event_type_value guidance_mode_value EventType-discrete
      GuidanceMode-discrete
  enqueue_step_telemetry session event = do
    now ← ask o.now
    let outcome =
        if event.event_type == EventType.help_requested
        then codes "stuck"
        else if event.payload.wrong_click
        then codes "wrong_click"
        else codes "ok"
    let entries = event.payload.entries
    let payload =
        item "event_id" (ident event.event_id)
        ∷ item "schema_version" (text (codes "1.0"))
        ∷ item "session_id" (ident session.id)
        ∷ item "run_id" (ident session.id)
        ∷ item "user_id" (text session.user_id)
        ∷ item "step_no" (number event.sequence_no)
        ∷ item "task_id" (text (task_id_of session.skill_id session.task_name))
        ∷ item "step_id" (entry (codes "step_id") entries)
        ∷ item "task_name" (text session.task_name)
        ∷ item "skill_id" (text_or_null session.skill_id)
        ∷ item "url_domain" (text (netloc event.origin))
        ∷ item "action" (text (event_type_value event.event_type))
        ∷ item "model_used" null
        ∷ item "input_tokens" (number 0)
        ∷ item "output_tokens" (number 0)
        ∷ item "credits" (text (codes "0"))
        ∷ item "replayed_from_memory" (flag (session.guidance_mode == GuidanceMode.replay))
        ∷ item "latency_ms" (number 0)
        ∷ item "outcome" (text outcome)
        ∷ item "guidance_mode" (text (guidance_mode_value session.guidance_mode))
        ∷ item "sync_attempt" (number 0)
        ∷ source
        ∷ item "browserbase_session_id" (text event.browserbase_session_id)
        ∷ item "page_id" (text event.page_id)
        ∷ item "page_instance_id" (ident event.page_instance_id)
        ∷ item "model_call_id" (entry (codes "model_call_id") entries)
        ∷ item "selector_tier" (entry (codes "selector_tier") entries)
        ∷ item "selector_result" (entry (codes "selector_result") entries)
        ∷ item "verification_predicate" (entry (codes "verification_predicate") entries)
        ∷ item "verification_result" (entry (codes "verification_result") entries)
        ∷ item "trusted_user_action" (flag (event.event_type == EventType.user_action_observed))
        ∷ item "terminal_provenance" (entry (codes "terminal_provenance") entries)
        ∷ item "synchronized_at" (instant now)
        ∷ item "ts" (instant event.occurred_at)
        ∷ []
    send (codes "session_step") (o.uuid_text event.event_id) payload
    send (codes "telemetry_ingestion") (o.uuid_text event.event_id) (
        item "event_id" (ident event.event_id)
        ∷ item "session_id" (ident session.id)
        ∷ item "run_id" (ident session.id)
        ∷ item "user_id" (text session.user_id)
        ∷ item "target_table" (text (codes "SESSION_STEPS"))
        ∷ item "payload_hash" (text (o.payload_hash payload))
        ∷ source
        ∷ item "status" (text (codes "synced"))
        ∷ item "attempt_count" (number 1)
        ∷ item "first_attempt_at" (instant now)
        ∷ item "last_attempt_at" (instant now)
        ∷ item "synchronized_at" (instant now)
        ∷ item "last_error_code" null
        ∷ item "updated_at" (instant now)
        ∷ [])

  abbrev pub trusted_action : Option Text → SessionView → EventEnvelope → M o (Unit {0})
  trusted_action none session event = done
  trusted_action (some provider) session event =
      cond_m (is_nonempty provider)
        (send (codes "browser_session") (provider ++ codes ":first-trusted-user-action") (
          item "browserbase_session_id" (text provider)
          ∷ item "session_id" (ident session.id)
          ∷ item "run_id" (ident session.id)
          ∷ item "user_id" (text session.user_id)
          ∷ item "provider_status" (text (codes "connected"))
          ∷ item "sync_status" (text (codes "synced"))
          ∷ item "first_trusted_user_action_at" (instant event.occurred_at)
          ∷ item "last_provider_check_at" (instant event.occurred_at)
          ∷ item "last_synced_at" (instant event.occurred_at)
          ∷ item "updated_at" (instant event.occurred_at)
          ∷ item "agent_surface_used" (flag false)
          ∷ source
          ∷ []))
        done

  -- `_enqueue_trusted_browser_action`
  unfoldable pub enqueue_trusted_browser_action : SessionView → EventEnvelope → M o (Unit {0})
  unfolding send
  enqueue_trusted_browser_action session event =
      trusted_action session.browserbase_session_id session event

  abbrev pub verification : Option Text → EventEnvelope → Bool → M o (Unit {0})
  verification none event verified = done
  verification (some attempt_id) event verified =
      send (codes "selector_attempt")
        (attempt_id ++ (codes ":verification:" ++ o.uuid_text event.event_id))
        (item "selector_attempt_id" (text attempt_id)
          ∷ item "event_id" (ident event.event_id)
          ∷ item "verification_result"
              (text (if verified then codes "verified" else codes "failed"))
          ∷ item "trusted_user_action" (flag true)
          ∷ source
          ∷ item "observed_at" (instant event.occurred_at)
          ∷ [])

  abbrev take_attempt : ℕ → M o (Option Text)
  take_attempt session_id d = (
    some (lookup session_id d.pending_selector_attempts),
    record d { pending_selector_attempts = remove session_id d.pending_selector_attempts },
  )

  -- `_enqueue_selector_verification`
  unfoldable pub enqueue_selector_verification : SessionView → EventEnvelope → Bool → M o (Unit {0})
  unfolding send
  enqueue_selector_verification session event verified = do
    attempt_id ← take_attempt session.id
    verification attempt_id event verified

  -- `_finish_run`
  unfoldable pub finish_run : SessionView → Text → Option Receipt → M o (Unit {0})
  unfolding send task_id_of mode_value terminal_provenance
  finish_run session outcome receipt = do
    now ← ask o.now
    send (codes "session_run") (o.uuid_text session.id ++ (codes ":finished:" ++ outcome)) (
        item "run_id" (ident session.id)
        ∷ item "session_id" (ident session.id)
        ∷ item "user_id" (text session.user_id)
        ∷ item "task_id" (text (task_id_of session.skill_id session.task_name))
        ∷ item "task_name" (text session.task_name)
        ∷ item "mode" (text (mode_value session.mode))
        ∷ item "skill_id" (text_or_null session.skill_id)
        ∷ item "skill_revision" (number_or_null session.skill_revision)
        ∷ item "terminal_outcome" (text outcome)
        ∷ item "terminal_provenance" (text (terminal_provenance outcome))
        ∷ item "verified_amount" (text_or_null session.amount)
        ∷ item "verified_currency" (text_or_null session.currency)
        ∷ item "browserbase_session_id" (text_or_null session.browserbase_session_id)
        ∷ item "everos_case_id" (text_or_null (case_of receipt))
        ∷ item "everos_skill_id" (text_or_null session.skill_id)
        ∷ item "everos_episode_id" (text_or_null (episode_of receipt))
        ∷ item "sync_status" (text (codes "synced"))
        ∷ item "started_at" (instant session.created_at)
        ∷ item "ended_at" (instant now)
        ∷ item "fixture_mode" (flag false)
        ∷ item "build_commit" (text c.build_commit)
        ∷ source
        ∷ item "last_synced_at" (instant now)
        ∷ item "updated_at" (instant now)
        ∷ [])
