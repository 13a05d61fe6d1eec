-- ===== src/Tests/Storage.antt =====
-- A small store, and the laws of the store at it (backend/app/persistence/repository.py).
use web_accessible.Prelude.{
  nat_eq, codes, text_eq, lookup, put, ℕ, ◌≡◌, refl, inl, true, false, none, some, [], ◌∷◌, ◌++◌,
  arith, any,
}
use web_accessible.Contracts.State.{SessionMode, SessionState, GuidanceMode, SyncState}
use web_accessible.Contracts.Event.{EventType}
use web_accessible.Store.Types.{SessionView, Store}
use web_accessible.Store.Sessions.{create_session, row_of}
use web_accessible.Store.Ledger.{append_event, record_step, get_recorded_steps}
use web_accessible.Store.Notices.{create_escalation}
use web_accessible.Store.Outbox.{enqueue, mark_outbox, pending_outbox}
use web_accessible.Store.Columns.{IsConsistent, writes-IsConsistent}
use web_accessible.Store.Steps.{get-record_step}
use web_accessible.Store.Once.{
  append_event_once, create_escalation_once, HaveUniqueKeys, enqueue_once,
}
use web_accessible.Store.Delivery.{is_item, mark_outbox-pending}
use web_accessible.Tests.Detector.{event_of}
use web_accessible.Tests.Routines.{recorded}

abbrev pub empty_store : Store
empty_store = record {
  participants = [];
  sessions = [];
  events = [];
  steps = [];
  browsers = [];
  model_calls = [];
  escalations = [];
  outbox = [];
  cooldowns = [];
  activities = [];
  reminders = [];
}

abbrev pub session_in : SessionState → SessionView
session_in state = record {
  id = 7;
  user_id = codes "u";
  participant_session_id = 1;
  mode = SessionMode.cold_teach;
  state = state;
  state_version = 3;
  task_name = codes "Pay";
  task_intent = codes "pay the bill";
  start_url = codes "https://example.com";
  skill_id = none;
  skill_revision = none;
  browserbase_session_id = some (codes "b");
  browser_status = codes "connected";
  current_instruction = none;
  guidance_mode = GuidanceMode.none;
  current_step_index = 0;
  total_steps = none;
  safety_message = none;
  terminal_message = none;
  amount = none;
  currency = none;
  sync_state = SyncState.pending;
  repair_attempts = 0;
  created_at = 10;
  updated_at = 20;
}

abbrev pub watched : SessionView
watched = session_in SessionState.observing

abbrev pub one_row : Store
one_row = record empty_store { sessions = (7, row_of watched) ∷ [] }

empty-IsConsistent : IsConsistent empty_store
unfolding lookup
empty-IsConsistent k row h = cc h

opened : create_session watched empty_store ≡ some one_row
unfolding create_session lookup put
opened = refl

writes-IsConsistent_example : IsConsistent one_row
writes-IsConsistent_example =
    writes-IsConsistent empty_store one_row watched watched 7 0 true (λ v. v) empty-IsConsistent
      (λ v. (refl, refl, refl, refl)) (inl opened)

get-record_step_example :
    (get_recorded_steps 7 (record_step 7 recorded 5 empty_store).1
      ≡ get_recorded_steps 7 empty_store ++ recorded ∷ [])
    × (get_recorded_steps 8 (record_step 7 recorded 5 empty_store).1
        ≡ get_recorded_steps 8 empty_store)
get-record_step_example = get-record_step 7 8 recorded 5 empty_store (ground arith)

append_event_once_example :
    append_event
      (event_of EventType.help_requested)
      9
      (append_event (event_of EventType.page_observed) 8 one_row).0
    ≡ ((append_event (event_of EventType.page_observed) 8 one_row).0, false)
append_event_once_example =
    append_event_once (event_of EventType.page_observed) (event_of EventType.help_requested) 8 9
      one_row refl

create_escalation_once_example :
    create_escalation 2 7
      (codes "u")
      (codes "r")
      6
      (create_escalation 1 7 (codes "u") (codes "r") 5 one_row).1
    ≡ create_escalation 1 7 (codes "u") (codes "r") 5 one_row
create_escalation_once_example =
    create_escalation_once 1 2 7 (codes "u") (codes "u") (codes "r") 5 6 one_row

enqueue_once_example :
    HaveUniqueKeys (enqueue 1 (codes "k") (codes "s") [] 5 one_row).outbox
    × HaveUniqueKeys (mark_outbox 1 true none 5 one_row).outbox
    × (enqueue 2 (codes "k") (codes "s") [] 6 (enqueue 1 (codes "k") (codes "s") [] 5 one_row)
        ≡ enqueue 1 (codes "k") (codes "s") [] 5 one_row)
enqueue_once_example = enqueue_once 1 2 1 5 6 (codes "k") (codes "s") [] [] true none one_row tt

mark_outbox-pending_example :
    ((n : ℕ) → any (is_item 1) (pending_outbox n (mark_outbox 1 true none 5 one_row)) ≡ false)
    × (any (is_item 1) (pending_outbox 4 (mark_outbox 1 false none 5 one_row))
        ≡ any (is_item 1) one_row.outbox)
mark_outbox-pending_example = mark_outbox-pending 1 5 4 none one_row (omega arith)
