-- ===== src/Orchestrator/Walk/Trace.antt =====
-- The sessions of the store over a run of the backend: any calls of the orchestrator, one after the
-- other, and the tasks that they leave to run (backend/app/services/orchestrator.py).
use web_accessible.Prelude.{
  nat_eq, Text, text_eq, Dict, ℕ, ◌≡◌, true, Option, none, some, List, [], ◌∷◌,
}
use web_accessible.Contracts.Event.{EventEnvelope}
use web_accessible.Session.{is_terminal}
use web_accessible.Session.Reach.{terminal_absorbing}
use web_accessible.Store.Types.{SessionView, SessionRow}
use web_accessible.Orchestrator.Desk.{Outside, Desk, Config, Task}
use web_accessible.Orchestrator.Begin.{begin_guidance}
use web_accessible.Orchestrator.Handlers.{NewSession, open_session, attach_browser, stop_browser}
use web_accessible.Orchestrator.Events.{handle_event, abandon}
use web_accessible.Orchestrator.Requests.{request_help, dismiss_guidance, ingest_batch, run_task}
use web_accessible.Orchestrator.Walk.{Follows, Follows-refl, IsKeyed, HasState, held, IsLawful}
use web_accessible.Orchestrator.Walk.Steps.{find-Lawful}
use web_accessible.Orchestrator.Walk.Rounds.{begin_guidance-Finding}
use web_accessible.Orchestrator.Walk.Calls.{
  handle_event-Lawful, stop_browser-Lawful, attach_browser-Finding, request_help-Lawful,
  dismiss_guidance-Lawful, ingest_batch-Lawful, run_task-Lawful, abandon-Lawful,
  open_session-Lawful,
}

-- The calls that the routes make, and the tasks in the background.
pub data Call : Type 0 where
  create : NewSession → Call
  attach_page : ℕ → Text → Call
  guide : ℕ → Text → Call
  event : EventEnvelope → Call
  batch : EventEnvelope → List EventEnvelope → Call
  help : ℕ → Call
  dismiss : ℕ → Call
  stop : ℕ → Text → Call
  abandon_session : ℕ → Text → Call
  task : Task → Call

module _ (o : Outside) (c : Config) where
  -- The desk after a call, whether it returned or raised.
  abbrev pub run_call : Call → Desk o → Desk o
  run_call (Call.create r) d = (open_session o c r d).1
  run_call (Call.attach_page i url) d = (attach_browser o c i url d).1
  run_call (Call.guide i reason) d = (begin_guidance o c i reason d).1
  run_call (Call.event e) d = (handle_event o c e d).1
  run_call (Call.batch e es) d = (ingest_batch o c e es d).1
  run_call (Call.help i) d = (request_help o c i d).1
  run_call (Call.dismiss i) d = (dismiss_guidance o c i d).1
  run_call (Call.stop i reason) d = (stop_browser o c i reason d).1
  run_call (Call.abandon_session i reason) d = (abandon o c i reason d).1
  run_call (Call.task t) d = (run_task o c t d).1

  abbrev pub run_sequence : List Call → Desk o → Desk o
  run_sequence [] d = d
  run_sequence (x ∷ xs) d = run_sequence xs (run_call x d)

  run_call-IsLawful :
      (start : Dict ℕ SessionRow) (x : Call) (d : Desk o)
      → IsLawful start d.store.sessions
      → IsLawful start (run_call x d).store.sessions
  run_call-IsLawful start (Call.create r) d h = (open_session-Lawful o c start r).kept d h
  run_call-IsLawful start (Call.attach_page i url) d h =
      (find-Lawful _ (attach_browser-Finding o c start i url)).kept d h
  run_call-IsLawful start (Call.guide i reason) d h =
      (find-Lawful _ (begin_guidance-Finding o c start i reason)).kept d h
  run_call-IsLawful start (Call.event e) d h = (handle_event-Lawful o c start e).kept d h
  run_call-IsLawful start (Call.batch e es) d h = (ingest_batch-Lawful o c start e es).kept d h
  run_call-IsLawful start (Call.help i) d h = (request_help-Lawful o c start i).kept d h
  run_call-IsLawful start (Call.dismiss i) d h = (dismiss_guidance-Lawful o c start i).kept d h
  run_call-IsLawful start (Call.stop i reason) d h =
      (stop_browser-Lawful o c start i reason).kept d h
  run_call-IsLawful start (Call.abandon_session i reason) d h =
      (abandon-Lawful o c start i reason).kept d h
  run_call-IsLawful start (Call.task t) d h = (run_task-Lawful o c start t).kept d h

  run_sequence-IsLawful :
      (start : Dict ℕ SessionRow) (xs : List Call) (d : Desk o)
      → IsLawful start d.store.sessions
      → IsLawful start (run_sequence xs d).store.sessions
  run_sequence-IsLawful start [] d h = h
  run_sequence-IsLawful start (x ∷ xs) d h =
      run_sequence-IsLawful start xs (run_call x d) (run_call-IsLawful start x d h)

  -- What a desk whose sessions stand under their own identifiers holds under a key after any calls
  -- follows from what it held before: a session stays, keeps its identifier, moves along the table
  -- of transitions, and its version does not fall; one that is new has moved along the table from
  -- the state of a created session, and stands under its identifier.
  pub sessions_follow :
      (calls : List Call) (d : Desk o) (k : ℕ)
      → ((j : ℕ) → IsKeyed j (held j d.store.sessions))
      → Follows k (held k d.store.sessions) (held k (run_sequence calls d).store.sessions)
  sessions_follow calls d k keyed =
      (run_sequence-IsLawful d.store.sessions calls d (record {
        keyed = keyed;
        follows = λ j. Follows-refl j (held j d.store.sessions);
      })).follows
        k

  ended_stays_in :
      (k : ℕ) (v : SessionView) (r : Option SessionView)
      → is_terminal v.state ≡ true
      → Follows k (some v) r
      → HasState v.state r
  ended_stays_in k v none ended h = absurd h
  ended_stays_in k v (some w) ended h = terminal_absorbing ended h.path

  -- A session in a terminal state is still there after any calls, in that state, if the sessions
  -- stood under their own identifiers before.
  pub ended_stays :
      (calls : List Call) (d : Desk o) (k : ℕ) (v : SessionView)
      → ((j : ℕ) → IsKeyed j (held j d.store.sessions))
      → held k d.store.sessions ≡ some v
      → is_terminal v.state ≡ true
      → HasState v.state (held k (run_sequence calls d).store.sessions)
  ended_stays calls d k v keyed there ended =
      ended_stays_in k v (held k (run_sequence calls d).store.sessions) ended
        (rw there at (sessions_follow calls d k keyed))
