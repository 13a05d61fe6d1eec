-- ===== src/Orchestrator/Walk/Calls.antt =====
-- The entry points of the orchestrator keep the table of sessions lawful
-- (backend/app/services/orchestrator.py).
use web_accessible.Prelude.{
  nat_eq, Text, text_eq, Dict, lookup, ℕ, ◌≡◌, refl, inl, inr, Bool, Option, none, some, List, [],
  ◌∷◌, Option-cases,
}
use web_accessible.Contracts.State.{SessionState, mode_eq, state_eq}
use web_accessible.Contracts.Event.{EventEnvelope, EventType, event_type_eq}
use web_accessible.Stuck.{StuckReason}
use web_accessible.Store.Types.{SessionView, SessionRow, Store}
use web_accessible.Store.Table.{insert}
use web_accessible.Store.Sessions.{create_session}
use web_accessible.Store.Ledger.{append_event}
use web_accessible.Store.Notices.{set_cooldown}
use web_accessible.Orchestrator.Desk.{Outside, Desk, Config, Task, Started, BrowserView}
use web_accessible.Orchestrator.Memory.{record_session_start, record_event}
use web_accessible.Orchestrator.Moves.{transition, publish, spawn}
use web_accessible.Orchestrator.Telemetry.{send}
use web_accessible.Orchestrator.Handlers.{
  NewSession, open_session, inserted, attach_browser, no_browser, attached, settle_start,
  report_stop, stop_browser,
}
use web_accessible.Orchestrator.Events.{
  abandon_open, abandon_in, on_dismissed, on_stuck, on_new_event, append, handle_event, abandon,
}
use web_accessible.Orchestrator.Requests.{
  button_event, request_help, dismiss_guidance, ingest, ingest_batch, run_task,
}
use web_accessible.Orchestrator.Walk.Rules.{table, silent_rules, silent-need}
use web_accessible.Orchestrator.Walk.Silent.{
  remember-sessions, send-silent, finish_run-silent, step_telemetry-silent,
  trusted_browser_action-silent, record_outcome-silent, sync_summary-silent,
}
use web_accessible.Orchestrator.Walk.Current.{put_new-IsLawful}
use web_accessible.Orchestrator.Walk.Steps.{
  Lawful, Finishing, Finding, silent-Lawful, find-Lawful, cond-Lawful, then-Lawful, found-Lawful,
  plain-Finishing, given-Finishing, rest-Finishing, ending_rules,
}
use web_accessible.Orchestrator.Walk.Answers.{giving_rules}
use web_accessible.Orchestrator.Walk.Answers.{found-Finding, then-Finding, rest-Giving}
use web_accessible.Orchestrator.Walk.Endings.{
  moved-Giving, updated-Finding, required-Finding, moves,
}
use web_accessible.Orchestrator.Walk.Rounds.{
  begin_guidance-Finding, offer_help-Finishing, resume-Lawful,
}
use web_accessible.Orchestrator.Walk.Actions.{handle_user_action-Finishing}

ruleset entry_rules = (
  found-Lawful, required-Finding, rest-Finishing, plain-Finishing, find-Lawful, then-Lawful,
  cond-Lawful, silent-Lawful,
)

module _ (o : Outside) (c : Config) (start : Dict ℕ SessionRow) where
  cooldown-sessions :
      (u : Text) (p : Text) (now : ℕ) (s : Store) → (set_cooldown u p now s).sessions ≡ s.sessions
  unfolding set_cooldown
  cooldown-sessions u p now s = refl

  on_dismissed-Finishing :
      (v : SessionView) (e : EventEnvelope) → Finishing start v (on_dismissed o c v e)
  unfolding on_dismissed
  on_dismissed-Finishing v e = search (cooldown-sessions, ending_rules, moves) depth 10

  on_stuck-Finishing :
      (v : SessionView) (e : EventEnvelope) (r : Option StuckReason)
      → Finishing start v (on_stuck o c v e r)
  unfolding on_stuck spawn
  on_stuck-Finishing v e none = search (ending_rules)
  on_stuck-Finishing v e (some StuckReason.explicit_help) = search (ending_rules)
  on_stuck-Finishing v e (some _) = search (offer_help-Finishing, ending_rules) depth 8

  on_new_event-Finishing :
      (v : SessionView) (e : EventEnvelope) → Finishing start v (on_new_event o c v e)
  unfolding on_new_event record_event
  on_new_event-Finishing v e =
      search
        (
          on_dismissed-Finishing, handle_user_action-Finishing, on_stuck-Finishing,
          step_telemetry-silent, trusted_browser_action-silent, remember-sessions, ending_rules,
        )
        depth 12

  append-silent :
      (e : EventEnvelope) (now : ℕ) (d : Desk o) → table (append o c e now d) ≡ d.store.sessions
  unfolding append_event
  append-silent e now d = refl

  pub handle_event-Lawful : (e : EventEnvelope) → Lawful start (handle_event o c e)
  unfolding handle_event
  handle_event-Lawful e =
      search (append-silent, on_new_event-Finishing, entry_rules, ending_rules) depth 12

  report_stop-silent :
      (p : Option Text) (v : SessionView) (b : Bool) (t : Text) (d : Desk o)
      → table (report_stop o c p v b t d) ≡ d.store.sessions
  report_stop-silent none v b t d = refl
  report_stop-silent (some p) v b t d = search (silent_rules, send-silent)

  pub stop_browser-Lawful : (i : ℕ) (t : Text) → Lawful start (stop_browser o c i t)
  unfolding stop_browser
  stop_browser-Lawful i t = search (report_stop-silent, entry_rules, updated-Finding) depth 12

  attached-Finishing : (v : SessionView) (b : BrowserView) → Finishing start v (attached o c v b)
  unfolding transition send publish
  attached-Finishing v b = search (ending_rules, moves) depth 10

  no_browser-Finishing : (v : SessionView) (t : Text) → Finishing start v (no_browser o c v t)
  unfolding transition publish
  no_browser-Finishing v t = search (ending_rules, moves) depth 10

  begun-Finishing : (v : SessionView) (s : Started) → Finishing start v (settle_start o c v s)
  begun-Finishing v (Started.started b) = attached-Finishing v b
  begun-Finishing v Started.blocked_site = no_browser-Finishing v _
  begun-Finishing v Started.broken = no_browser-Finishing v _

  pub attach_browser-Finding : (i : ℕ) (t : Text) → Finding start (attach_browser o c i t)
  unfolding attach_browser
  attach_browser-Finding i t =
      search
        (
          begun-Finishing, begin_guidance-Finding, found-Finding, rest-Giving, then-Finding,
          required-Finding, entry_rules, giving_rules,
        )
        depth 12 fits 5000

  pub button_event-Lawful : (i : ℕ) (k : EventType) → Lawful start (button_event o c i k)
  unfolding button_event
  button_event-Lawful i k =
      search (handle_event-Lawful, entry_rules, ending_rules, silent-need) depth 14

  pub request_help-Lawful : (i : ℕ) → Lawful start (request_help o c i)
  unfolding request_help
  request_help-Lawful i = search (button_event-Lawful, entry_rules)

  pub dismiss_guidance-Lawful : (i : ℕ) → Lawful start (dismiss_guidance o c i)
  unfolding dismiss_guidance
  dismiss_guidance-Lawful i = search (button_event-Lawful, entry_rules)

  ingest-Lawful : (es : List EventEnvelope) → Lawful start (ingest o c es)
  unfolding ingest
  ingest-Lawful [] = search (entry_rules)
  ingest-Lawful (e ∷ es) =
      then-Lawful (handle_event o c e) _ (handle_event-Lawful e)
        λ new. then-Lawful (ingest o c es) _ (ingest-Lawful es) λ rest. silent-Lawful _ λ d. refl

  pub ingest_batch-Lawful :
      (e : EventEnvelope) (es : List EventEnvelope) → Lawful start (ingest_batch o c e es)
  unfolding ingest_batch
  ingest_batch-Lawful e es = search (ingest-Lawful, entry_rules) depth 8

  abandon_open-Finishing :
      (i : ℕ) (v : SessionView) (t : Text) → Finishing start v (abandon_open o c i v t)
  unfolding abandon_open
  abandon_open-Finishing i v t =
      search
        (
          given-Finishing, moved-Giving, rest-Finishing, then-Lawful, find-Lawful,
          stop_browser-Lawful, required-Finding, finish_run-silent, record_outcome-silent,
          sync_summary-silent, ending_rules,
        )
        depth 14 fits 5000

  abandon_in-Finishing :
      (s : SessionState) (i : ℕ) (v : SessionView) (t : Text)
      → Finishing start v (abandon_in o c s i v t)
  abandon_in-Finishing SessionState.completed i v t = search (ending_rules)
  abandon_in-Finishing SessionState.prepared i v t = search (ending_rules)
  abandon_in-Finishing _ i v t = abandon_open-Finishing i v t

  pub abandon-Lawful : (i : ℕ) (t : Text) → Lawful start (abandon o c i t)
  unfolding abandon
  abandon-Lawful i t = search (abandon_in-Finishing, found-Lawful, required-Finding)

  inserted-Lawful :
      (v : SessionView) → v.state ≡ SessionState.created → Lawful start (inserted o c v)
  unfolding create_session insert
  inserted-Lawful v new = record {
    kept = λ d h. elim (Option-cases (lookup v.id d.store.sessions)) [
      | inl absent ↦
          rw (table, inserted, absent) (put_new-IsLawful start v d.store.sessions absent new h)
      | inr (row, there) ↦ rw (table, inserted, there) h
    ];
  }

  pub open_session-Lawful : (r : NewSession) → Lawful start (open_session o c r)
  unfolding open_session record_session_start
  open_session-Lawful r =
      search (inserted-Lawful, remember-sessions, send-silent, then-Lawful, silent-Lawful) depth 10

  pub run_task-Lawful : (t : Task) → Lawful start (run_task o c t)
  unfolding run_task
  run_task-Lawful (Task.guide i r) = search (begin_guidance-Finding, entry_rules)
  run_task-Lawful (Task.resume i) = resume-Lawful o c start i
  run_task-Lawful (Task.stop i r) = search (stop_browser-Lawful, entry_rules)
