-- ===== src/Orchestrator/Memory.antt =====
-- Activity that a participant allowed to be remembered: the recording half of
-- backend/app/services/activity_memory.py.
use web_accessible.Prelude.{
  ◌==◌, nat_eq, Text, codes, text_eq, is_nonempty, lower, ℕ, Bool, true, false, ◌&&◌, ◌||◌, Option,
  none, some, [], ◌++◌, if◌then◌else◌,
}
use web_accessible.Url.{scheme, netloc}
use web_accessible.Contracts.State.{SyncState}
use web_accessible.Contracts.Event.{EventEnvelope, event_type_value}
use web_accessible.Store.Types.{SessionView, ActivityRow, Store}
use web_accessible.Store.Sessions.{get_participant}
use web_accessible.Store.Activity.{
  record_activity, summarize_session_activity, mark_session_activity_synced,
}
use web_accessible.Orchestrator.Desk.{
  Outside, M, ◌>>=◌, done, on_store, reads, call, ask, attempt, cond_m,
}

-- `consent`: activity memory, reminders, and the time zone.
unfoldable pub consent : ℕ → Store → Bool × Bool × Text
unfolding get_participant
consent participant_session_id s = elim (get_participant participant_session_id s) [
  | none ↦ (false, false, codes "UTC")
  | some row ↦
      let memory = row.preferences.activity_memory_enabled in
      let zone = row.preferences.timezone in
      (
        memory,
        row.preferences.proactive_reminders_enabled && memory,
        if is_nonempty zone then zone else codes "UTC",
      )
]

-- `_safe_origin`
unfoldable pub safe_origin : Text → Option Text
unfolding scheme netloc
safe_origin url =
    if (scheme url == codes "http" || scheme url == codes "https") && is_nonempty (netloc url)
    then some (lower (scheme url) ++ (codes "://" ++ lower (netloc url)))
    else none

module _ (o : Outside) where
  -- `_record`, after the test of the consent.
  unfoldable pub remember :
      Text → SessionView → Text → ℕ → Option Text → Option Text → Store → Store
  unfolding record_activity consent
  remember activity_id session activity_type occurred_at origin outcome s =
      let (memory, reminders, zone) = consent session.participant_session_id s in
      let (weekday, minute) = o.local_time zone occurred_at in
      let row : ActivityRow = record {
        user_id = session.user_id;
        session_id = session.id;
        task_id = o.task_digest session.task_name;
        task_name = session.task_name;
        activity_type = activity_type;
        origin = origin;
        outcome = outcome;
        occurred_at = occurred_at;
        timezone = zone;
        local_weekday = weekday;
        local_minute = minute;
        details = [];
        memory_sync_state = SyncState.pending;
      } in
      if memory then (record_activity activity_id row s).0 else s

  -- `record_session_start`
  unfoldable pub record_session_start : SessionView → Store → Store
  unfolding remember safe_origin
  record_session_start session =
      remember (codes "session:" ++ (o.uuid_text session.id ++ codes ":started")) session
        (codes "task_started") session.created_at (safe_origin session.start_url) none

  -- `record_event`
  unfoldable pub record_event : SessionView → EventEnvelope → Store → Store
  unfolding remember safe_origin event_type_value
  record_event session event =
      remember (codes "event:" ++ o.uuid_text event.event_id) session
        (event_type_value event.event_type) event.occurred_at (safe_origin event.origin) none

  -- `record_outcome`
  unfoldable pub record_outcome : SessionView → Text → M o (Unit {0})
  unfolding remember safe_origin
  record_outcome session outcome = do
    now ← ask o.now
    on_store (
        remember (codes "session:" ++ (o.uuid_text session.id ++ (codes ":outcome:" ++ outcome)))
          session (codes "task_outcome") now (safe_origin session.start_url) (some outcome))

  -- Whether there is a summary to send.
  abbrev has_summary : SessionView → Store → Bool
  has_summary session s =
      (consent session.participant_session_id s).0
      && elim (summarize_session_activity session.id s) [ none ↦ false | some x ↦ true ]

  -- `sync_session_summary`: the pattern that the summary is sent with, and the foresight that follows
  -- it, leave the backend's state alone.
  unfoldable pub sync_session_summary : SessionView → M o (Unit {0})
  unfolding consent summarize_session_activity mark_session_activity_synced
  sync_session_summary session = do
    wanted ← reads (λ d. has_summary session d.store)
    cond_m wanted
        (do
          saved ←
              attempt (call (o.save_activity session.user_id session.id) >>= λ u. reads (λ d. true))
                (reads (λ d. false))
          on_store (mark_session_activity_synced session.id saved))
        done
