-- ===== src/Store/Notices.antt =====
-- Escalations to a caregiver, dismissed pages and acted reminders in the store
-- (backend/app/persistence/repository.py).
use web_accessible.Prelude.{
  ◌==◌, nat_eq, Text, text_eq, Dict, lookup, put, ℕ, Bool, ◌&&◌, Option, none, some, List, [], ◌∷◌,
  ◌++◌, map, if◌then◌else◌, keep,
}
use web_accessible.Store.Table.{order_by_desc}
use web_accessible.Store.Types.{EscalationView, EscalationStatus, ReminderRow, Store}

-- The first row that passes a test.
unfoldable pub first_where {ℓ} : {A : Type ℓ} → (A → Bool) → List A → Option A
first_where p [] = none
first_where p (x ∷ xs) = if p x then some x else first_where p xs

abbrev pub is_about : ℕ → Text → EscalationView → Bool
is_about session_id reason e = e.session_id == session_id && e.reason == reason

-- The row of a new escalation.
abbrev pub fresh_escalation : ℕ → ℕ → Text → Text → ℕ → EscalationView
fresh_escalation fresh session_id user_id reason now = record {
  id = fresh;
  session_id = session_id;
  user_id = user_id;
  reason = reason;
  status = EscalationStatus.pending;
  caregiver_note = none;
  caregiver_name = none;
  created_at = now;
  updated_at = now;
}

-- `create_escalation`: `fresh` is the new UUID. A session has one escalation for a reason.
unfoldable pub create_escalation : ℕ → ℕ → Text → Text → ℕ → Store → EscalationView × Store
unfolding first_where
create_escalation fresh session_id user_id reason now s =
    let row = fresh_escalation fresh session_id user_id reason now in
    elim (first_where (is_about session_id reason) s.escalations) [
      | none ↦ (row, record s { escalations = s.escalations ++ row ∷ [] })
      | some old ↦ (old, s)
    ]

-- `list_escalations`
unfoldable pub list_escalations : Text → Store → List EscalationView
unfolding order_by_desc
list_escalations user_id s =
    order_by_desc (λ (e : EscalationView). e.created_at)
      (keep (λ (e : EscalationView). e.user_id == user_id) s.escalations)

abbrev noted : ℕ → Text → Text → ℕ → EscalationView → EscalationView
noted escalation_id author_name note now e =
    if e.id == escalation_id
    then record e {
      caregiver_name = some author_name;
      caregiver_note = some note;
      status = EscalationStatus.acknowledged;
      updated_at = now;
    }
    else e

-- `update_escalation_note`; `none` is `KeyError`.
unfoldable pub update_escalation_note :
    ℕ → Text → Text → ℕ → Store → Option (EscalationView × Store)
unfolding first_where
update_escalation_note escalation_id author_name note now s =
    let rows = map (noted escalation_id author_name note now) s.escalations in
    elim (first_where (λ (e : EscalationView). e.id == escalation_id) rows) [
      | none ↦ none
      | some e ↦ some (e, record s { escalations = rows })
    ]

-- The rows of a first key.
abbrev pub inner : {V : Type 0} → Option (Dict Text V) → Dict Text V
inner none = []
inner (some d) = d

-- `set_cooldown`, an upsert under the user and the page.
unfoldable pub set_cooldown : Text → Text → ℕ → Store → Store
set_cooldown user_id page_key dismissed_at s = record s {
  cooldowns =
      put user_id (put page_key dismissed_at (inner (lookup user_id s.cooldowns))) s.cooldowns;
}

-- `get_cooldown`
unfoldable pub get_cooldown : Text → Text → Store → Option ℕ
get_cooldown user_id page_key s = lookup page_key (inner (lookup user_id s.cooldowns))

abbrev acted : Option ReminderRow → Text → Text → ℕ → Option ℕ → ReminderRow
acted none task_id status acted_at snoozed_until = record {
  task_id = task_id;
  status = status;
  acted_at = acted_at;
  snoozed_until = snoozed_until;
}
acted (some row) task_id status acted_at snoozed_until = record row {
  status = status;
  acted_at = acted_at;
  snoozed_until = snoozed_until;
}

-- `record_reminder_action`: on a conflict the task stays.
unfoldable pub record_reminder_action : Text → Text → Text → Text → ℕ → Option ℕ → Store → Store
record_reminder_action reminder_id user_id task_id status acted_at snoozed_until s =
    let rows = inner (lookup reminder_id s.reminders) in
    record s {
      reminders =
          put reminder_id
            (put user_id (acted (lookup user_id rows) task_id status acted_at snoozed_until) rows)
            s.reminders;
    }

-- `get_reminder_action`
unfoldable pub get_reminder_action : Text → Text → Store → Option ReminderRow
get_reminder_action reminder_id user_id s = lookup user_id (inner (lookup reminder_id s.reminders))
