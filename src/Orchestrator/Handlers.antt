-- ===== src/Orchestrator/Handlers.antt =====
-- The entry points of the orchestrator (backend/app/services/orchestrator.py).
use web_accessible.Prelude.{
  ◌==◌, nat_eq, Text, codes, text_eq, is_nonempty, ℕ, Bool, true, false, not, Option, none, some,
  [], ◌∷◌, ◌++◌, if◌then◌else◌,
}
use web_accessible.Contracts.State.{
  SessionState, SessionState-discrete, state_eq, SessionMode, SessionMode-discrete, mode_eq,
  mode_value, GuidanceMode, SyncState,
}
use web_accessible.Contracts.Json.{Json, null, flag, text, ident, instant, item, text_or_null}
use web_accessible.Contracts.Event.{event_type_eq}
use web_accessible.Stuck.{StuckReason}
use web_accessible.Store.Types.{SessionView}
use web_accessible.Store.Sessions.{create_session}
use web_accessible.Orchestrator.Desk.{
  Outside, M, Config, BrowserView, Started, ◌>>=◌, ◌>>◌, ret, raise, done, on_store, ask, call,
  cond_m,
}
use web_accessible.Orchestrator.Memory.{record_session_start}
use web_accessible.Orchestrator.Moves.{require_session, transition, update, publish}
use web_accessible.Orchestrator.Telemetry.{send, source, task_id_of}
use web_accessible.Orchestrator.Begin.{begin_guidance}

abbrev given : Option Text → Option Text
given none = none
given (some t) = if is_nonempty t then some t else none

-- The values of `StuckReason`.
unfoldable pub reason_text : StuckReason → Text
reason_text StuckReason.idle = codes "idle"
reason_text StuckReason.url_loop = codes "url_loop"
reason_text StuckReason.scroll_loop = codes "scroll_loop"
reason_text StuckReason.route_departure = codes "route_departure"
reason_text StuckReason.partial_form_idle = codes "partial_form_idle"
reason_text StuckReason.unknown_sensitive_request = codes "unknown_sensitive_request"
reason_text StuckReason.explicit_help = codes "explicit_help"

-- What the routes ask a new session for.
pub record NewSession : Type 0 where
  pub user_id : Text
  pub participant_session_id : ℕ
  pub mode : SessionMode
  pub task_name : Text
  pub task_intent : Text
  pub skill_id : Option Text
  pub start_url : Text

module _ (o : Outside) (c : Config) where
  abbrev pub inserted : SessionView → M o (Unit {0})
  inserted v d = elim (create_session v d.store) [
    | none ↦ (none, d)
    | some s ↦ (some tt, record d { store = s })
  ]

  -- `create_session`
  unfoldable pub open_session : NewSession → M o SessionView
  unfolding create_session record_session_start send task_id_of mode_value
  open_session r = do
    now ← ask o.now
    fresh ← ask o.fresh
    let v : SessionView = record {
      id = fresh;
      user_id = r.user_id;
      participant_session_id = r.participant_session_id;
      mode = r.mode;
      state = SessionState.created;
      state_version = 0;
      task_name = r.task_name;
      task_intent = r.task_intent;
      start_url = r.start_url;
      skill_id = r.skill_id;
      skill_revision = none;
      browserbase_session_id = none;
      browser_status = codes "not_started";
      current_instruction = none;
      guidance_mode = GuidanceMode.none;
      current_step_index = 0;
      total_steps = none;
      safety_message = none;
      terminal_message = none;
      amount = none;
      currency = none;
      sync_state = SyncState.pending;
      repair_attempts = 0;
      created_at = now;
      updated_at = now;
    }
    inserted v
    on_store (record_session_start o v)
    send o c (codes "session_run") (o.uuid_text fresh ++ codes ":started") (
        item "run_id" (ident fresh)
        ∷ item "session_id" (ident fresh)
        ∷ item "user_id" (text r.user_id)
        ∷ item "task_id" (text (task_id_of r.skill_id r.task_name))
        ∷ item "task_name" (text r.task_name)
        ∷ item "mode" (text (mode_value r.mode))
        ∷ item "skill_id" (text_or_null r.skill_id)
        ∷ item "sync_status" (text (codes "synced"))
        ∷ item "started_at" (instant now)
        ∷ item "fixture_mode" (flag false)
        ∷ item "build_commit" (text c.build_commit)
        ∷ source o c
        ∷ item "last_synced_at" (instant now)
        ∷ item "updated_at" (instant now)
        ∷ [])
    ret v

  -- A browser that could not be started: the exception is raised again.
  abbrev pub no_browser : SessionView → Text → M o (Unit {0})
  no_browser session message = do
    updated ←
        transition o session SessionState.provider_unavailable
          (λ v. record v { browser_status = codes "unavailable"; terminal_message = some message })
    publish o updated none none
    raise

  abbrev pub attached : SessionView → BrowserView → M o (Unit {0})
  attached session view = do
    updated ← transition o session SessionState.observing (λ v. record v {
      browserbase_session_id = some view.browserbase_session_id;
      browser_status = codes "connected";
    })
    now ← ask o.now
    send o c (codes "browser_session") (view.browserbase_session_id ++ codes ":attached") (
        item "browserbase_session_id" (text view.browserbase_session_id)
        ∷ item "session_id" (ident session.id)
        ∷ item "run_id" (ident session.id)
        ∷ item "user_id" (text session.user_id)
        ∷ item "provider_status" (text (codes "connected"))
        ∷ item "sync_status" (text (codes "synced"))
        ∷ item "created_at" (instant view.created_at)
        ∷ item "cdp_attached_at" (instant now)
        ∷ item "live_view_ready_at" (instant now)
        ∷ item "last_provider_check_at" (instant now)
        ∷ item "last_synced_at" (instant now)
        ∷ item "updated_at" (instant now)
        ∷ item "agent_surface_used" (flag false)
        ∷ source o c
        ∷ [])
    publish o updated none none

  -- What the browser's start leads to.
  abbrev pub settle_start : SessionView → Started → M o (Unit {0})
  settle_start session (Started.started view) = attached session view
  settle_start session Started.blocked_site =
      no_browser session
        (codes "This site cannot be opened in the browser I use, so nothing started.")
  settle_start session Started.broken =
      no_browser session (codes "Browserbase could not start this browser session.")

  -- `attach_browser`
  unfoldable pub attach_browser : ℕ → Text → M o SessionView
  unfolding require_session transition send publish begin_guidance SessionState-discrete
      SessionMode-discrete
  attach_browser session_id start_url = do
    session ← require_session o session_id
    cond_m (not (session.state == SessionState.created)) (ret session) (do
      begun ← ask (o.start session.id session.user_id start_url)
      settle_start session begun
      cond_m (session.mode == SessionMode.replay)
          (begin_guidance o c session_id (codes "replay_started") >>= λ v. done) done
      require_session o session_id)

  abbrev when_stopped : Bool → ℕ → Json
  when_stopped true now = instant now
  when_stopped false now = null

  abbrev pub report_stop : Option Text → SessionView → Bool → Text → M o (Unit {0})
  report_stop none session stopped reason = done
  report_stop (some provider) session stopped reason = do
    now ← ask o.now
    send o c (codes "browser_session") (provider ++ codes ":terminated") (
        item "browserbase_session_id" (text provider)
        ∷ item "session_id" (ident session.id)
        ∷ item "run_id" (ident session.id)
        ∷ item "user_id" (text session.user_id)
        ∷ item "provider_status"
            (text (if stopped then codes "terminated" else codes "termination_failed"))
        ∷ item "terminal_reason" (text reason)
        ∷ item "sync_status" (text (codes "synced"))
        ∷ item "terminate_requested_at" (instant now)
        ∷ item "terminated_at" (when_stopped stopped now)
        ∷ item "last_provider_check_at" (instant now)
        ∷ item "last_synced_at" (instant now)
        ∷ item "updated_at" (instant now)
        ∷ item "agent_surface_used" (flag false)
        ∷ source o c
        ∷ [])

  -- `stop_browser`
  unfoldable pub stop_browser : ℕ → Text → M o Bool
  unfolding require_session update send
  stop_browser session_id reason = do
    stopped ← call (o.stop session_id reason)
    session ← require_session o session_id
    updated ← update o session_id false (λ v. record v {
      browser_status = if stopped then codes "stopped" else codes "termination_failed";
    })
    report_stop (given session.browserbase_session_id) session stopped reason
    ret stopped
