-- ===== src/Orchestrator/Outcome.antt =====
-- How a session ends: escalation, completion, and the end of a replay
-- (backend/app/services/orchestrator.py).
use web_accessible.Prelude.{
  ◌==◌, nat_eq, Text, codes, text_eq, ℕ, Bool, true, false, Option, none, some, [], ◌∷◌, ◌++◌,
  if◌then◌else◌,
}
use web_accessible.Contracts.State.{
  SessionState, SessionMode, SessionMode-discrete, mode_eq, GuidanceMode, SyncState,
}
use web_accessible.Contracts.Json.{Json, flag, number, text, ident, instant, item, text_or_null}
use web_accessible.Contracts.Command.{CommandType, BackendCommand}
use web_accessible.Contracts.Skill.{SkillOutcome, SkillDocument}
use web_accessible.Skill.Recorder.{compile_skill}
use web_accessible.Store.Types.{SessionView, EscalationView, EscalationStatus}
use web_accessible.Store.Ledger.{get_recorded_steps}
use web_accessible.Store.Notices.{create_escalation}
use web_accessible.Orchestrator.Desk.{
  Outside, M, Config, Task, Receipt, ◌>>=◌, ◌>>◌, ret, need, reads, ask, call, attempt, cond_m,
}
use web_accessible.Orchestrator.Memory.{record_outcome, sync_session_summary}
use web_accessible.Orchestrator.Moves.{transition, update, publish, spawn, set_command, drop_active}
use web_accessible.Orchestrator.Telemetry.{send, source, finish_run}

-- The values of `EscalationStatus`.
unfoldable pub escalation_value : EscalationStatus → Text
escalation_value EscalationStatus.pending = codes "pending"
escalation_value EscalationStatus.delivered = codes "delivered"
escalation_value EscalationStatus.delivery_failed = codes "delivery_failed"
escalation_value EscalationStatus.acknowledged = codes "acknowledged"
escalation_value EscalationStatus.resolved = codes "resolved"

abbrev pub or_unknown : Option Text → Json
or_unknown none = text (codes "unknown")
or_unknown (some t) = text t

module _ (o : Outside) (c : Config) where
  abbrev pub command_of : ℕ → SessionView → CommandType → Option Text → BackendCommand
  command_of fresh session kind instruction = record {
    command_id = fresh;
    session_id = session.id;
    server_state_version = session.state_version;
    command_type = kind;
    page_instance_id = none;
    instruction = instruction;
    target = none;
    expected_transition = none;
    safety = none;
  }

  -- The end that the three share: the run, the memory, the command, and the browser.
  unfoldable pub close :
      SessionView → Text → Option Receipt → CommandType → Option Text → M o (Unit {0})
  unfolding finish_run record_outcome sync_session_summary set_command publish spawn
  close session outcome receipt kind instruction = do
    finish_run o c session outcome receipt
    record_outcome o session outcome
    sync_session_summary o session
    fresh ← ask o.fresh
    set_command o session.id (command_of fresh session kind instruction)
    publish o session (some (command_of fresh session kind instruction)) none
    spawn o (Task.stop session.id outcome)

  -- `self.repository.create_escalation(…)`
  abbrev escalation_for : SessionView → Text → ℕ → ℕ → M o EscalationView
  escalation_for session reason fresh now d =
      let (e, s) = create_escalation fresh session.id session.user_id reason now d.store in
      (some e, record d { store = s })

  -- `_escalate`
  unfoldable pub escalate : SessionView → Text → M o SessionView
  unfolding transition send create_escalation escalation_value close
  escalate session reason = do
    now ← ask o.now
    fresh ← ask o.fresh
    escalation ← escalation_for session reason fresh now
    updated ← transition o session SessionState.escalated (λ v. record v {
      current_instruction =
          some (codes "I have paused here so your caregiver can help with this step.");
      terminal_message = some (codes "This session is paused for caregiver help.");
      guidance_mode = GuidanceMode.none;
    })
    send o c (codes "escalation") (o.uuid_text escalation.id) (
        item "escalation_id" (ident escalation.id)
        ∷ item "session_id" (ident session.id)
        ∷ item "run_id" (ident session.id)
        ∷ item "user_id" (text session.user_id)
        ∷ item "reason" (text reason)
        ∷ item "status" (text (escalation_value escalation.status))
        ∷ item "delivery_channel" (text (codes "caregiver_dashboard"))
        ∷ item "delivery_attempt_count" (number 0)
        ∷ item "caregiver_response_status" (text (codes "awaiting_response"))
        ∷ source o c
        ∷ item "updated_at" (instant escalation.updated_at)
        ∷ [])
    close updated (codes "escalated") none CommandType.escalated updated.current_instruction
    ret updated

  -- The `try` of `_complete`: the route is compiled and kept by the memory service.
  unfoldable pub save_route : SessionView → M o (SessionView × Option Receipt)
  unfolding update send compile_skill get_recorded_steps
  save_route session = do
    key ← ask o.fresh
    now ← ask o.now
    steps ← reads (λ d. get_recorded_steps session.id d.store)
    skill ← need (
        compile_skill key session.id now session.task_name session.start_url SkillOutcome.completed
          steps)
    raw ← call (o.save_teach_run session.user_id session.id skill now)
    updated ←
        update o session.id false
          (λ v. record v { skill_id = raw.skill_id; skill_revision = some skill.revision })
    let key = o.uuid_text skill.skill_key ++ (codes ":" ++ o.int_text skill.revision)
    written ← ask o.now
    send o c (codes "skill_revision") key (
        item "skill_revision_link_id" (text key)
        ∷ item "skill_key" (ident skill.skill_key)
        ∷ item "revision" (number skill.revision)
        ∷ item "everos_skill_id" (text_or_null raw.skill_id)
        ∷ item "source_session_id" (ident session.id)
        ∷ item "source_run_id" (ident session.id)
        ∷ item "task_outcome" (text (codes "completed"))
        ∷ item "provider_status" (text (codes "written"))
        ∷ item "indexing_status" (or_unknown raw.indexing_status)
        ∷ item "is_current" (flag true)
        ∷ item "everos_case_id" (text_or_null raw.case_id)
        ∷ source o c
        ∷ item "written_at" (instant written)
        ∷ [])
    ret (updated, some raw)

  -- `_complete`
  unfoldable pub complete : SessionView → M o (Unit {0})
  unfolding transition update save_route close SessionMode-discrete
  complete session = do
    let message = session.task_name ++ codes " is complete."
    moved ← transition o session SessionState.completed (λ v. record v {
      terminal_message = some message;
      current_instruction = some message;
      guidance_mode = GuidanceMode.none;
    })
    saved ← cond_m (session.mode == SessionMode.replay) (ret (moved, none)) (
        attempt (save_route session) (
          update o session.id false (λ v. record v {
            sync_state = SyncState.failed;
            terminal_message =
                some
                  (session.task_name ++ codes " is complete, but its memory is not yet available.");
          })
          >>= λ v. ret (v, none)))
    close saved.0 (codes "completed") saved.1 CommandType.completed saved.0.terminal_message

  abbrev pub is_completed : SkillOutcome → Bool
  is_completed SkillOutcome.completed = true
  is_completed SkillOutcome.prepared = false

  -- `_finish_replay`
  unfoldable pub finish_replay : SessionView → SkillDocument → ℕ → M o (Unit {0})
  unfolding transition drop_active close
  finish_replay session skill final_step_index = do
    let whole = is_completed skill.task_outcome
    let message =
        if whole
        then session.task_name ++ codes " is complete."
        else session.task_name ++ codes " is ready for your final confirmation."
    let state = if whole then SessionState.completed else SessionState.prepared
    updated ← transition o session state (λ v. record v {
      terminal_message = some message;
      current_instruction = some message;
      current_step_index = final_step_index;
      guidance_mode = GuidanceMode.none;
    })
    drop_active o session.id
    close updated (if whole then codes "completed" else codes "prepared") none
        (if whole then CommandType.completed else CommandType.prepared) (some message)
