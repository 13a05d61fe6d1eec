-- ===== src/Store/Activity.antt =====
-- The remembered activity of a participant in the store (backend/app/persistence/repository.py).
use web_accessible.Prelude.{
  ◌==◌, nat_eq, contains, Text, codes, text_eq, is_nonempty, Dict, lookup, put, ℕ, ◌+◌, Bool, true,
  false, not, ◌&&◌, Option, none, some, List, [], ◌∷◌, ◌++◌, map, reverse, if◌then◌else◌, take,
  keep,
}
use web_accessible.Contracts.State.{SyncState}
use web_accessible.Store.Table.{insert_or_ignore, order_by, order_by_desc}
use web_accessible.Store.Types.{ActivityRow, Store}

-- `record_activity`: whether the activity is new.
unfoldable pub record_activity : Text → ActivityRow → Store → Store × Bool
unfolding insert_or_ignore
record_activity activity_id row s =
    let (rows, new) = insert_or_ignore activity_id row s.activities in
    (record s { activities = rows }, new)

abbrev has_type : Option Text → ActivityRow → Bool
has_type none r = true
has_type (some t) r = r.activity_type == t

-- `list_activities`: the latest `limit` rows, the earliest of them first.
unfoldable pub list_activities : Text → Option Text → ℕ → Store → List ActivityRow
unfolding order_by_desc
list_activities user_id activity_type limit s = reverse (
    take limit (
      order_by_desc (λ (r : ActivityRow). r.occurred_at)
        (keep (λ (r : ActivityRow). r.user_id == user_id && has_type activity_type r)
          (map (λ (e : Text × ActivityRow). e.1) s.activities))))

pub record ActivitySummary : Type 0 where
  pub session_id : ℕ
  pub user_id : Text
  pub task_id : Text
  pub task_name : Text
  pub started_at : ℕ
  pub ended_at : ℕ
  pub timezone : Text
  pub origins : List Text
  pub activity_counts : Dict Text ℕ
  pub outcome : Text

-- `if text:` of an optional text.
abbrev pub is_given : Option Text → Bool
is_given none = false
is_given (some t) = is_nonempty t

abbrev text_of : Option Text → Text
text_of none = []
text_of (some t) = t

abbrev or_zero : Option ℕ → ℕ
or_zero none = 0
or_zero (some n) = n

-- One round of the loop over the rows: the counts, the origins and the outcome.
abbrev pub tally : ActivityRow → Dict Text ℕ × List Text × Text → Dict Text ℕ × List Text × Text
tally r (counts, origins, outcome) = (
  put r.activity_type (or_zero (lookup r.activity_type counts) + 1) counts,
  if is_given r.origin && not (contains origins (text_of r.origin))
      then origins ++ text_of r.origin ∷ []
      else origins,
  if is_given r.outcome then text_of r.outcome else outcome,
)

tally_all : List ActivityRow → Dict Text ℕ × List Text × Text → Dict Text ℕ × List Text × Text
tally_all [] acc = acc
tally_all (r ∷ rs) acc = tally_all rs (tally r acc)

last_of : ActivityRow → List ActivityRow → ActivityRow
last_of r [] = r
last_of r (x ∷ xs) = last_of x xs

summarize : ℕ → List ActivityRow → Option ActivitySummary
unfolding tally_all last_of
summarize session_id [] = none
summarize session_id (first ∷ rest) =
    let (counts, origins, outcome) = tally_all (first ∷ rest) ([], [], []) in
    some (record {
      session_id = session_id;
      user_id = first.user_id;
      task_id = first.task_id;
      task_name = first.task_name;
      started_at = first.occurred_at;
      ended_at = (last_of first rest).occurred_at;
      timezone = first.timezone;
      origins = origins;
      activity_counts = counts;
      outcome = if is_nonempty outcome then outcome else codes "incomplete";
    })

-- `summarize_session_activity`
unfoldable pub summarize_session_activity : ℕ → Store → Option ActivitySummary
unfolding summarize order_by
summarize_session_activity session_id s = summarize session_id (
    order_by (λ (r : ActivityRow). r.occurred_at)
      (keep (λ (r : ActivityRow). r.session_id == session_id)
        (map (λ (e : Text × ActivityRow). e.1) s.activities)))

abbrev synced_row : ℕ → Bool → Text × ActivityRow → Text × ActivityRow
synced_row session_id synced (k, r) =
    if r.session_id == session_id
    then (k, record r { memory_sync_state = if synced then SyncState.synced else SyncState.failed })
    else (k, r)

-- `mark_session_activity_synced`
unfoldable pub mark_session_activity_synced : ℕ → Bool → Store → Store
mark_session_activity_synced session_id synced s = record s {
  activities = map (synced_row session_id synced) s.activities;
}
