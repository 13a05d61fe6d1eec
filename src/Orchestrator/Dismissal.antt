-- ===== src/Orchestrator/Dismissal.antt =====
-- A dismissed step (backend/app/services/orchestrator.py).
use web_accessible.Prelude.{
  ◌==◌, nat_eq, Text, text_eq, is_nonempty, text_beq_iff, Dict, lookup-put, lookup, ℕ, ◌≡◌, refl,
  ap, ◌∙◌, Bool, true, false, Option, none, some, arith, if◌then◌else◌, nat_beq_iff,
}
use web_accessible.Contracts.State.{SessionState, state_eq, GuidanceMode}
use web_accessible.Contracts.Event.{EventType-discrete, EventType, EventEnvelope}
use web_accessible.Contracts.Json.{Payload}
use web_accessible.Contracts.Event.{event_type_eq, EventType, EventType-discrete}
use web_accessible.Session.{ensure_transition}
use web_accessible.Stuck.{page_key, observe}
use web_accessible.Orchestrator.Walk.Silent.{step_telemetry-silent, remember-sessions}
use web_accessible.Store.Types.{SessionView, Store, ActivityRow, EventRow}
use web_accessible.Store.Outbox.{enqueue}
use web_accessible.Store.Activity.{record_activity}
use web_accessible.Store.Notices.{set_cooldown, get_cooldown}
use web_accessible.Orchestrator.Desk.{Outside, Desk, Config, M, and_then, ret}
use web_accessible.Orchestrator.Delivery.{Names, is_bound-Names, appended, new_handled, delivered}
use web_accessible.Store.Sessions.{get_session}
use web_accessible.Store.Ledger.{append_event}
use web_accessible.Store.Table.{insert_or_ignore}
use web_accessible.Orchestrator.Memory.{record_event, remember}
use web_accessible.Orchestrator.Telemetry.{send, enqueue_step_telemetry}
use web_accessible.Orchestrator.Moves.{transition_refused}
use web_accessible.Orchestrator.Events.{handle_event, on_new_event, known_origin, on_dismissed}

-- The states in which a session has a step to dismiss, or works on one.
abbrev pub is_busy : SessionState → Bool
is_busy SessionState.guiding = true
is_busy SessionState.awaiting_user_action = true
is_busy SessionState.rerouting = true
is_busy SessionState.repairing = true
is_busy _ = false

busy_refused :
    (s : SessionState) → is_busy s ≡ true → ensure_transition s SessionState.observing ≡ false
unfolding ensure_transition
busy_refused s h = ground arith

enqueue-events :
    (fresh : ℕ) (kind key : Text) (p : Payload) (now : ℕ) (s : Store)
    → (enqueue fresh kind key p now s).events ≡ s.events
unfolding enqueue
enqueue-events fresh kind key p now s = ground arith

if-events : (b : Bool) (x s : Store) → x.events ≡ s.events → (if b then x else s).events ≡ s.events
if-events true x s h = h
if-events false x s h = refl

activity-events :
    (i : Text) (r : ActivityRow) (s : Store) → (record_activity i r s).0.events ≡ s.events
unfolding record_activity
activity-events i r s = refl

remember-events :
    (o : Outside) (i : Text) (v : SessionView) (t : Text) (at_time : ℕ)
    (origin outcome : Option Text) (s : Store)
    → (remember o i v t at_time origin outcome s).events ≡ s.events
unfolding remember
remember-events o i v t at_time origin outcome s = search (if-events, activity-events)

text_same : (t : Text) → t == t ≡ true
text_same t = (text_beq_iff t t).1 refl

and_then-some :
    {o : Outside} {A B : Type 0} (r : Option A × Desk o) (a : A) (f : A → M o B)
    → r.0 ≡ some a
    → and_then r f ≡ f a r.1
and_then-some (none, d) a f h = cc h
and_then-some (some b, d) a f h = ap (λ x. f x d) (cc h)

then-events :
    {o : Outside} {A B : Type 0} (r : Option A × Desk o) (f : A → M o B) (e : Dict ℕ EventRow)
    → r.1.store.events ≡ e
    → ((a : A) (d : Desk o) → (f a d).1.store.events ≡ d.store.events)
    → (and_then r f).1.store.events ≡ e
then-events (none, d) f e h g = h
then-events (some a, d) f e h g = g a d ∙ h

module _ (o : Outside) (c : Config) where
  send-events :
      (kind key : Text) (p : Payload) (d : Desk o)
      → (send o c kind key p d).1.store.events ≡ d.store.events
  unfolding send
  send-events kind key p d =
      let fresh = o.fresh d.outside in enqueue-events fresh.0 kind key p (o.now fresh.1).0 d.store

module _ (o : Outside) (c : Config) (session : SessionView) (event : EventEnvelope) where
  abbrev pub page : Text
  page = page_key event.origin event.redacted_path

  abbrev cooled : Store → Store
  cooled s = set_cooldown session.user_id page event.occurred_at s

  -- Only the cooldown is written before the exception.
  on_dismissed_refused :
      (d : Desk o)
      → is_busy session.state ≡ true
      → on_dismissed o c session event d ≡ (none, record d { store = cooled d.store })
  unfolding on_dismissed
  on_dismissed_refused d h =
      rw
        (transition_refused o session SessionState.observing
          (λ v. record v { current_instruction = none; guidance_mode = GuidanceMode.none })
          (record d { store = cooled d.store }) (busy_refused session.state h))
        refl

  -- What a refused dismissal leaves.
  record IsRefused (d : Desk o) (r : Option (Unit {0}) × Desk o) : Type 0 where
    raised : r.0 ≡ none
    sessions : r.1.store.sessions ≡ d.store.sessions
    events : r.1.store.events ≡ d.store.events
    commands : r.1.commands ≡ d.commands
    active : r.1.active ≡ d.active
    tasks : r.1.tasks ≡ d.tasks
    cooldown : get_cooldown session.user_id page r.1.store ≡ some event.occurred_at

  cooled_at : (s : Store) → get_cooldown session.user_id page (cooled s) ≡ some event.occurred_at
  unfolding get_cooldown set_cooldown
  cooled_at s = rw (lookup-put, text_same session.user_id) (rw (lookup-put, text_same page) refl)

  dismissed-IsRefused :
      (d : Desk o) → is_busy session.state ≡ true → IsRefused d (on_dismissed o c session event d)
  unfolding set_cooldown
  dismissed-IsRefused d h = rw (on_dismissed_refused d h) (record {
    raised = refl;
    sessions = refl;
    events = refl;
    commands = refl;
    active = refl;
    tasks = refl;
    cooldown = cooled_at d.store;
  })

  telemetry_sent : (d : Desk o) → (enqueue_step_telemetry o c session event d).0 ≡ some tt
  unfolding enqueue_step_telemetry send
  telemetry_sent d = refl

  telemetry-events :
      (d : Desk o) → (enqueue_step_telemetry o c session event d).1.store.events ≡ d.store.events
  unfolding enqueue_step_telemetry
  telemetry-events d = search (then-events, send-events)

  telemetry_kept :
      (d : Desk o)
      → let e = (enqueue_step_telemetry o c session event d).1 in
        (e.commands ≡ d.commands) × (e.active ≡ d.active) × (e.tasks ≡ d.tasks)
  unfolding enqueue_step_telemetry send
  telemetry_kept d = (refl, refl, refl)

  -- The desk of a dismissal when the detector has seen it.
  abbrev seen : Desk o → Desk o
  seen d =
      let e = (enqueue_step_telemetry o c session event d).1 in
      let known = known_origin o c event.origin (lookup session.id e.skills) in
      record e {
        outside = (o.now e.outside).1;
        windows =
            (observe event (is_nonempty session.task_name) known (o.now e.outside).0 e.windows).0;
      }

  new_dismissal :
      (d : Desk o)
      → event.event_type ≡ EventType.guidance_dismissed
      → on_new_event o c session event d
        ≡ on_dismissed o c session event
            (seen (record d { store = record_event o session event d.store }))
  unfolding on_new_event EventType-discrete send
  new_dismissal d kind = rw kind refl

  raised_through :
      (n : Option (Unit {0}) × Desk o) → n.0 ≡ none → and_then n (λ u. ret true) ≡ (none, n.1)
  raised_through (none, d) h = refl
  raised_through (some u, d) h = absurd (cc h)

  held_after :
      (d e : Desk o)
      → get_session event.session_id d.store ≡ some session
      → e.store.sessions ≡ d.store.sessions
      → get_session event.session_id e.store ≡ some session
  unfolding get_session
  held_after d e found same = rw same found

  appended_known :
      (d e : Desk o)
      → lookup event.event_id d.store.events ≡ none
      → e.store.events ≡ (append_event event (o.now d.outside).0 d.store).0.events
      → (row : EventRow) × (lookup event.event_id e.store.events ≡ some row)
  unfolding append_event
  appended_known d e new same =
      let row : EventRow = record {
        session_id = event.session_id;
        page_instance_id = event.page_instance_id;
        sequence_no = event.sequence_no;
        payload = event;
        occurred_at = event.occurred_at;
        accepted_at = (o.now d.outside).0;
      } in
      let own = (nat_beq_iff event.event_id event.event_id).1 refl in
      (row, rw (same, new, insert_or_ignore) (rw (lookup-put, own) refl))

  new_event-IsRefused :
      (d : Desk o)
      → event.event_type ≡ EventType.guidance_dismissed
      → is_busy session.state ≡ true
      → IsRefused d (on_new_event o c session event d)
  unfolding record_event
  new_event-IsRefused d kind busy =
      let d' = record d { store = record_event o session event d.store } in
      let z = dismissed-IsRefused (seen d') busy in
      let k = telemetry_kept d' in
      rw (new_dismissal d kind) (record {
        raised = z.raised;
        sessions =
            z.sessions
            ∙ step_telemetry-silent o c session event d'
            ∙ remember-sessions o _ session _ _ _ _ d.store;
        events = z.events ∙ telemetry-events d' ∙ remember-events o _ session _ _ _ _ d.store;
        commands = z.commands ∙ k.0;
        active = z.active ∙ k.1;
        tasks = z.tasks ∙ k.2;
        cooldown = z.cooldown;
      })

  -- The dismissal of a step by the session's participant, from the session's browser, while the
  -- session is guided, awaits the action, reroutes or repairs, raises an exception where the event is
  -- new. The sessions, the commands, the steps that wait and the tasks are then as they were, and yet
  -- the page is cooled down at the event's time; and the event counts as delivered, so that the same
  -- event is then answered as a duplicate.
  pub dismissal_refused :
      (d : Desk o)
      → get_session event.session_id d.store ≡ some session
      → Names event session
      → lookup event.event_id d.store.events ≡ none
      → event.event_type ≡ EventType.guidance_dismissed
      → is_busy session.state ≡ true
      → let r = handle_event o c event d in
        (r.0 ≡ none)
        × (r.1.store.sessions ≡ d.store.sessions)
        × (r.1.commands ≡ d.commands)
        × (r.1.active ≡ d.active)
        × (r.1.tasks ≡ d.tasks)
        × (get_cooldown session.user_id page r.1.store ≡ some event.occurred_at)
        × ((handle_event o c event r.1).0 ≡ some false)
  unfolding append_event get_session
  dismissal_refused d found names new kind busy =
      let a = appended o c event d in
      let z = new_event-IsRefused a kind busy in
      let n = on_new_event o c session event a in
      let same : handle_event o c event d ≡ (none, n.1) =
        new_handled o c event d session found ((is_bound-Names o c event session).1 names) new
        ∙ raised_through n z.raised in
      let there = held_after d n.1 found z.sessions in
      let known = appended_known d n.1 new z.events in
      rw same (
        refl,
        z.sessions,
        z.commands,
        z.active,
        z.tasks,
        z.cooldown,
        ap (λ x. x.0) (delivered o c event n.1 (session, there, names, known.0, known.1)),
      )
