-- ===== src/Orchestrator/Events.antt =====
-- How an event of the browser is handled, and how a session is abandoned
-- (backend/app/services/orchestrator.py).
use web_accessible.Prelude.{
  ◌==◌, nat_eq, contains, Text, codes, text_eq, is_nonempty, lookup, remove, ℕ, ◌+◌, Bool, true,
  false, ◌&&◌, Option, none, some, [], ◌∷◌, leb,
}
use web_accessible.Contracts.State.{
  SessionState, SessionState-discrete, state_eq, mode_eq, GuidanceMode,
}
use web_accessible.Contracts.Event.{EventEnvelope, EventType, EventType-discrete, event_type_eq}
use web_accessible.Contracts.Skill.{SkillDocument}
use web_accessible.Safety.{origin}
use web_accessible.Stuck.{StuckReason, observe, page_key, seconds}
use web_accessible.Store.Types.{SessionView}
use web_accessible.Store.Ledger.{append_event}
use web_accessible.Store.Notices.{set_cooldown, get_cooldown}
use web_accessible.Orchestrator.Desk.{
  Outside, M, Config, Task, ◌>>=◌, ◌>>◌, ret, raise, done, on_store, reads, ask, cond_m,
}
use web_accessible.Orchestrator.Memory.{record_event, record_outcome, sync_session_summary}
use web_accessible.Orchestrator.Moves.{require_session, transition, publish, spawn}
use web_accessible.Orchestrator.Telemetry.{
  finish_run, enqueue_step_telemetry, enqueue_trusted_browser_action,
}
use web_accessible.Orchestrator.Begin.{offer_help}
use web_accessible.Orchestrator.Confirm.{handle_user_action}
use web_accessible.Orchestrator.Handlers.{reason_text, stop_browser}

module _ (o : Outside) (c : Config) where
  -- `_known_origin`: the skill's own origins are compared as they are written.
  unfoldable pub known_origin : Text → Option SkillDocument → Bool
  unfolding origin
  known_origin url skill =
      contains
        (origin c.demo_target_url
          ∷ origin c.demo_fallback_url
          ∷ elim skill [ none ↦ [] | some s ↦ s.allowed_origins ])
        (origin url)

  -- `self.stuck.observe(…)`, at the clock's time.
  abbrev watch : SessionView → EventEnvelope → ℕ → M o (Option StuckReason)
  watch session event now d =
      let known = known_origin event.origin (lookup session.id d.skills) in
      let (windows, reason) = observe event (is_nonempty session.task_name) known now d.windows in
      (some reason, record d { windows = windows })

  abbrev drop_command : ℕ → M o (Unit {0})
  drop_command session_id d = (some tt, record d { commands = remove session_id d.commands })

  abbrev pub append : EventEnvelope → ℕ → M o Bool
  append event now d =
      let (s, new) = append_event event now d.store in (some new, record d { store = s })

  -- The dismissal of a step.
  unfoldable pub on_dismissed : SessionView → EventEnvelope → M o (Unit {0})
  unfolding set_cooldown transition publish page_key
  on_dismissed session event = do
    on_store
        (set_cooldown session.user_id (page_key event.origin event.redacted_path) event.occurred_at)
    updated ←
        transition o session SessionState.observing
          (λ v. record v { current_instruction = none; guidance_mode = GuidanceMode.none })
    drop_command session.id
    publish o updated none none

  -- `dismissed is None or event.occurred_at - dismissed >= timedelta(minutes=10)`
  abbrev pub is_cool : Option ℕ → ℕ → Bool
  is_cool none now = true
  is_cool (some dismissed) now = leb (dismissed + seconds 600) now

  -- What a reason to be stuck leads to.
  unfoldable pub on_stuck : SessionView → EventEnvelope → Option StuckReason → M o (Unit {0})
  unfolding spawn offer_help get_cooldown page_key reason_text SessionState-discrete
  on_stuck session event none = done
  on_stuck session event (some StuckReason.explicit_help) =
      spawn o (Task.guide session.id (reason_text StuckReason.explicit_help))
  on_stuck session event (some reason) =
      cond_m (session.state == SessionState.observing)
        (do
          dismissed ← reads (λ d.
              get_cooldown session.user_id (page_key event.origin event.redacted_path) d.store)
          cond_m (is_cool dismissed event.occurred_at) (offer_help o c session reason) done)
        done

  -- `handle_event` once the event is in the ledger.
  unfoldable pub on_new_event : SessionView → EventEnvelope → M o (Unit {0})
  unfolding record_event enqueue_step_telemetry enqueue_trusted_browser_action observe known_origin
      on_dismissed handle_user_action on_stuck EventType-discrete
  on_new_event session event = do
    on_store (record_event o session event)
    enqueue_step_telemetry o c session event
    let acted = event.event_type == EventType.user_action_observed
    cond_m acted (enqueue_trusted_browser_action o c session event) done
    seen ← ask o.now
    reason ← watch session event seen
    cond_m (event.event_type == EventType.guidance_dismissed) (on_dismissed session event)
        (cond_m acted (handle_user_action o c session event) (on_stuck session event reason))

  abbrev pub is_bound : SessionView → EventEnvelope → Bool
  is_bound session event = event.user_id == session.user_id && elim session.browserbase_session_id [
    | none ↦ false
    | some provider ↦ event.browserbase_session_id == provider
  ]

  -- `handle_event`: whether the event was new. The exceptions are `KeyError` and `PermissionError`.
  unfoldable pub handle_event : EventEnvelope → M o Bool
  unfolding require_session append_event
  handle_event event = do
    session ← require_session o event.session_id
    cond_m (is_bound session event)
        (do
          now ← ask o.now
          new ← append event now
          cond_m new (on_new_event session event >>= λ u. ret true) (ret false))
        raise

  -- `abandon` of a session that has not ended.
  unfoldable pub abandon_open : ℕ → SessionView → Text → M o SessionView
  unfolding require_session transition finish_run record_outcome sync_session_summary publish
      stop_browser
  abandon_open session_id session reason = do
    updated ← transition o session SessionState.abandoned (λ v. record v {
      terminal_message = some (codes "This task was stopped before completion.");
    })
    finish_run o c updated (codes "abandoned") none
    record_outcome o updated (codes "abandoned")
    sync_session_summary o updated
    publish o updated none none
    stopped ← stop_browser o c session_id reason
    require_session o session_id

  abbrev pub abandon_in : SessionState → ℕ → SessionView → Text → M o SessionView
  abandon_in SessionState.completed session_id session reason = ret session
  abandon_in SessionState.prepared session_id session reason = ret session
  abandon_in _ session_id session reason = abandon_open session_id session reason

  -- `abandon`
  unfoldable pub abandon : ℕ → Text → M o SessionView
  unfolding require_session abandon_open
  abandon session_id reason = do
    session ← require_session o session_id
    abandon_in session.state session_id session reason
