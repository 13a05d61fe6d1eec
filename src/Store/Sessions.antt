-- ===== src/Store/Sessions.antt =====
-- Participants and task sessions in the store (backend/app/persistence/repository.py). The clock's
-- reading is an argument of each operation.
use web_accessible.Prelude.{
  ◌==◌, nat_eq, Text, text_eq, lookup, put, ℕ, ◌+◌, Bool, Option, none, some, List, map,
  if◌then◌else◌, take, keep,
}
use web_accessible.Store.Table.{insert, order_by_desc}
use web_accessible.Store.Types.{Preferences, ParticipantRow, SessionView, SessionRow, Store}

-- `create_participant`; `none` is `sqlite3.IntegrityError`.
unfoldable pub create_participant :
    ℕ → Text → Text → Text → Preferences → ℕ → ℕ → Store → Option Store
unfolding insert
create_participant participant_id user_id role participant_name preferences expires_at now s =
    let row : ParticipantRow = record {
      user_id = user_id;
      role = role;
      participant_name = participant_name;
      preferences = preferences;
      expires_at = expires_at;
      created_at = now;
    } in
    elim (insert participant_id row s.participants) [
      | none ↦ none
      | some rows ↦ some (record s { participants = rows })
    ]

-- `get_participant`
unfoldable pub get_participant : ℕ → Store → Option ParticipantRow
get_participant participant_id s = lookup participant_id s.participants

-- The columns of a session, from its view.
abbrev pub row_of : SessionView → SessionRow
row_of v = record {
  user_id = v.user_id;
  participant_session_id = v.participant_session_id;
  state = v.state;
  state_version = v.state_version;
  payload = v;
  created_at = v.created_at;
  updated_at = v.updated_at;
}

-- `create_session`; `none` is `sqlite3.IntegrityError`.
unfoldable pub create_session : SessionView → Store → Option Store
unfolding insert
create_session v s = elim (insert v.id (row_of v) s.sessions) [
  | none ↦ none
  | some rows ↦ some (record s { sessions = rows })
]

abbrev payload_of : Option SessionRow → Option SessionView
payload_of none = none
payload_of (some row) = some row.payload

-- `get_session`
unfoldable pub get_session : ℕ → Store → Option SessionView
get_session session_id s = payload_of (lookup session_id s.sessions)

-- `list_sessions`: the user's sessions, the latest update first.
unfoldable pub list_sessions : Text → ℕ → Store → List SessionView
unfolding order_by_desc
list_sessions user_id limit s =
    let rows =
      keep (λ (r : SessionRow). r.user_id == user_id)
        (map (λ (e : ℕ × SessionRow). e.1) s.sessions) in
    map (λ (r : SessionRow). r.payload)
      (take limit (order_by_desc (λ (r : SessionRow). r.updated_at) rows))

-- The view that `update_session` writes: the caller's changes, then the clock and the version.
unfoldable pub updated_view : Bool → (SessionView → SessionView) → ℕ → SessionView → SessionView
updated_view increment_version changes now current = record (changes current) {
  updated_at = now;
  state_version =
      if increment_version then current.state_version + 1 else (changes current).state_version;
}

-- The `UPDATE`: the columns that it sets.
abbrev pub set_columns : SessionRow → SessionView → SessionRow
set_columns row v = record row {
  state = v.state;
  state_version = v.state_version;
  payload = v;
  updated_at = v.updated_at;
}

-- `update_session`; `none` is `KeyError`.
unfoldable pub update_session :
    ℕ → Bool → (SessionView → SessionView) → ℕ → Store → Option (SessionView × Store)
unfolding updated_view
update_session session_id increment_version changes now s = elim (lookup session_id s.sessions) [
  | none ↦ none
  | some row ↦
      let v = updated_view increment_version changes now row.payload in
      some (v, record s { sessions = put session_id (set_columns row v) s.sessions })
]
