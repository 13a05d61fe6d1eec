-- ===== src/Store/Ledger.antt =====
-- The ledger of accepted events and the steps recorded in a session
-- (backend/app/persistence/repository.py).
use web_accessible.Prelude.{
  ◌==◌, nat_eq, text_eq, ℕ, Bool, ◌&&◌, Option, none, some, List, [], ◌∷◌, ◌++◌, map, keep, ℤ, pos,
  negsuc,
}
use web_accessible.Contracts.Event.{EventEnvelope}
use web_accessible.Contracts.Skill.{SkillStep}
use web_accessible.Store.Table.{insert_or_ignore, maximum, next_after, order_by}
use web_accessible.Store.Types.{EventRow, StepRow, Store}

-- `append_event`: whether the event is new.
unfoldable pub append_event : EventEnvelope → ℕ → Store → Store × Bool
unfolding insert_or_ignore
append_event event now s =
    let row : EventRow = record {
      session_id = event.session_id;
      page_instance_id = event.page_instance_id;
      sequence_no = event.sequence_no;
      payload = event;
      occurred_at = event.occurred_at;
      accepted_at = now;
    } in
    let (rows, new) = insert_or_ignore event.event_id row s.events in
    (record s { events = rows }, new)

-- The rows of one page instance of a session.
unfoldable pub page_events : ℕ → ℕ → Store → List EventRow
page_events session_id page_instance_id s =
    keep (λ (r : EventRow). r.session_id == session_id && r.page_instance_id == page_instance_id)
      (map (λ (e : ℕ × EventRow). e.1) s.events)

abbrev or_minus_one : Option ℕ → ℤ
or_minus_one none = negsuc 0
or_minus_one (some n) = pos n

-- `highest_sequence`
unfoldable pub highest_sequence : ℕ → ℕ → Store → ℤ
unfolding page_events maximum
highest_sequence session_id page_instance_id s =
    or_minus_one
      (maximum (λ (r : EventRow). r.sequence_no) (page_events session_id page_instance_id s))

-- The rows of a session.
abbrev pub session_steps : ℕ → Store → List StepRow
session_steps session_id s = keep (λ (r : StepRow). r.session_id == session_id) s.steps

-- `record_step`: the number of the new step.
unfoldable pub record_step : ℕ → SkillStep → ℕ → Store → ℕ × Store
unfolding maximum
record_step session_id step now s =
    let step_no = next_after (maximum (λ (r : StepRow). r.step_no) (session_steps session_id s)) in
    let row : StepRow = record {
      session_id = session_id;
      step_no = step_no;
      step = step;
      created_at = now;
    } in
    (step_no, record s { steps = s.steps ++ row ∷ [] })

-- `get_recorded_steps`
unfoldable pub get_recorded_steps : ℕ → Store → List SkillStep
unfolding order_by
get_recorded_steps session_id s =
    map (λ (r : StepRow). r.step)
      (order_by (λ (r : StepRow). r.step_no) (session_steps session_id s))
