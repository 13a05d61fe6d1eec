-- ===== src/Reconcile/Release.antt =====
-- A reconciliation pass over the provider and the operational store
-- (backend/app/services/browser_reconciliation.py). The two protocols that the service is built on,
-- and the clock, are a parameter: functions on a world that is passed along.
use web_accessible.Prelude.{
  ◌==◌, nat_eq, Text, codes, text_eq, Dict, lookup, put, set_default, ℕ, zero, suc, Bool, true,
  false, ◌&&◌, Option, none, some, List, [], ◌∷◌, ◌++◌, map, if◌then◌else◌, length, any,
}
use web_accessible.Reconcile.Types.{
  SessionStatus, is_terminal_status, Disposition, Disposition-discrete, disposition_eq, Reason,
  reason_value, Outcome, ReconciliationPolicy, owner_environment, LocalBrowserSession,
  SessionRecord, ShownStatus, SessionOutcome,
}
use web_accessible.Reconcile.Classify.{classify, is_some}
use web_accessible.Reconcile.Report.{ProviderError, ReconciliationReport, anomalies}

-- A provider call returns, or raises `BrowserbaseProviderError`.
pub data Reply (A : Type 0) : Type 0 where
  ok : A → Reply A
  err : ProviderError → Reply A

pub record TerminationResult : Type 0 where
  pub status : SessionStatus
  pub already_terminal : Bool

-- `ReconciliationProvider` and `LocalSessionStore`. `snapshot` is `none` where it raises
-- `LocalStateUnavailableError`, and `record_release` where it raises that or `sqlite3.Error`.
pub record Backend : Type 1 where
  pub World : Type 0
  pub list_sessions : SessionStatus → Option Text → World → Reply (List SessionRecord) × World
  pub terminate : Text → World → Reply TerminationResult × World
  pub writable : Bool
  pub snapshot : World → Option (Dict Text LocalBrowserSession) × World
  pub record_release : Text → Text → World → Option Bool × World
  pub clock : World → ℕ × World

abbrev is_missing : Option ℕ → Bool
is_missing none = false
is_missing (some code) = code == 404

-- What the provider's answer does to a record, and whether `_terminate` goes on to the store.
unfoldable pub settle : SessionOutcome → Reply TerminationResult → SessionOutcome × Bool
settle r (Reply.err e) =
    if is_missing e.status_code
    then (
      record r {
        provider_status = ShownStatus.gone;
        outcome = Outcome.already_terminal;
        provider_confirmed = true;
      },
      true,
    )
    else (
      record r { outcome = Outcome.failed; error_code = some e.code; retryable = some e.retryable },
      false,
    )
settle r (Reply.ok result) =
    if is_terminal_status result.status
    then (
      record r {
        provider_status = ShownStatus.listed result.status;
        outcome = if result.already_terminal then Outcome.already_terminal else Outcome.terminated;
        provider_confirmed = true;
      },
      true,
    )
    else (
      record r {
        provider_status = ShownStatus.listed result.status;
        outcome = Outcome.failed;
        provider_confirmed = false;
        error_code = some (codes "termination_unconfirmed");
        retryable = some true;
      },
      false,
    )

abbrev or_false : Option Bool → Bool
or_false none = false
or_false (some b) = b

abbrev pub reclaim : SessionOutcome → Option Text → SessionOutcome
reclaim r local_status = record r {
  disposition = Disposition.active;
  reason = Reason.reclaimed_by_backend;
  local_status = local_status;
  outcome = Outcome.none;
}

abbrev pub is_orphan : SessionOutcome → Bool
is_orphan r = r.disposition == Disposition.orphaned

abbrev pub mark_dry_run : SessionOutcome → SessionOutcome
mark_dry_run r = if is_orphan r then record r { outcome = Outcome.dry_run } else r

-- `{session.id: session for session in sessions}`
unfoldable pub index_sessions :
    List SessionRecord → Dict Text SessionRecord → Dict Text SessionRecord
index_sessions [] d = d
index_sessions (s ∷ ss) d = index_sessions ss (put s.id s d)

-- `found.setdefault(record.id, record)` over one listing.
unfoldable pub add_listed : List SessionRecord → Dict Text SessionRecord → Dict Text SessionRecord
add_listed [] found = found
add_listed (s ∷ ss) found = add_listed ss (set_default s.id s found)

module _ (b : Backend) where
  open b use {World, list_sessions, terminate, writable, snapshot, record_release, clock}

  -- The write-back of a confirmed release.
  unfoldable pub write_back : SessionOutcome × Bool → World → SessionOutcome × World
  write_back (r, confirmed) w =
      if confirmed && is_some r.web_session_id
      then (let (changed, w') =
            record_release r.provider_session_id (codes "reconciled:" ++ reason_value r.reason) w in
          (record r { local_state_updated = or_false changed }, w'))
      else (r, w)

  -- `_terminate`
  unfoldable pub terminate_session : SessionOutcome → World → SessionOutcome × World
  unfolding settle write_back
  terminate_session r w =
      let (reply, w') = terminate r.provider_session_id w in write_back (settle r reply) w'

  -- The tail of the loop body of `_release`: the budget, then the termination.
  unfoldable pub spend : SessionOutcome → ℕ → World → SessionOutcome × ℕ × World
  spend r zero w = (record r { outcome = Outcome.deferred_termination_limit }, 0, w)
  spend r (suc budget) w = let (r', w') = terminate_session r w in (r', budget, w')

  -- The loop body of `_release` at one orphan.
  unfoldable pub release_one :
      ReconciliationPolicy
      → Dict Text SessionRecord
      → Dict Text LocalBrowserSession
      → ℕ
      → SessionOutcome
      → ℕ
      → World
      → SessionOutcome × ℕ × World
  unfolding Disposition-discrete
  release_one p by_id confirmed now r budget w = elim (lookup r.provider_session_id by_id) [
    | none ↦ spend r budget w
    | some source ↦
        let recheck = classify p source confirmed now in
        if recheck.disposition == Disposition.orphaned
        then spend r budget w
        else (reclaim r recheck.local_status, budget, w)
  ]

  -- The loop of `_release`. The orphans are those of the report's records, which it changes in place.
  unfoldable pub release_all :
      ReconciliationPolicy
      → Dict Text SessionRecord
      → Dict Text LocalBrowserSession
      → ℕ
      → List SessionOutcome
      → ℕ
      → World
      → List SessionOutcome × World
  unfolding Disposition-discrete
  release_all p by_id confirmed now [] budget w = ([], w)
  release_all p by_id confirmed now (r ∷ rs) budget w =
      let (r', budget', w') =
        if r.disposition == Disposition.orphaned
        then release_one p by_id confirmed now r budget w
        else (r, budget, w) in
      let (rs', w'') = release_all p by_id confirmed now rs budget' w' in (r' ∷ rs', w'')

  -- `_release` after the second snapshot; `none` where that raised.
  unfoldable pub release_confirmed :
      ReconciliationPolicy
      → List SessionRecord
      → List SessionOutcome
      → Option (Dict Text LocalBrowserSession)
      → World
      → Option (List SessionOutcome) × World
  unfolding index_sessions
  release_confirmed p sessions records none w = (none, w)
  release_confirmed p sessions records (some local) w =
      let (now, w') = clock w in
      let by_id = index_sessions sessions [] in
      let (records', w'') = release_all p by_id local now records p.max_terminations w' in
      (some records', w'')

  -- `_release`
  unfoldable pub release :
      ReconciliationPolicy
      → List SessionRecord
      → List SessionOutcome
      → World
      → Option (List SessionOutcome) × World
  unfolding Disposition-discrete
  release p sessions records w =
      if any is_orphan records
      then (let (confirmed, w') = snapshot w in release_confirmed p sessions records confirmed w')
      else (some records, w)

  -- The second query of `_list_live_sessions`.
  unfoldable pub list_pending :
      ReconciliationPolicy → Reply (List SessionRecord) → World → Reply (List SessionRecord) × World
  unfolding add_listed owner_environment
  list_pending p (Reply.err e) w = (Reply.err e, w)
  list_pending p (Reply.ok first) w =
      let (pending, w') = list_sessions SessionStatus.pending (owner_environment p) w in
      elim pending [
        | Reply.err e ↦ (Reply.err e, w')
        | Reply.ok second ↦ (
          Reply.ok
              (map (λ (e : Text × SessionRecord). e.1) (add_listed second (add_listed first []))),
          w',
        )
      ]

  -- `_list_live_sessions`, a query for each status of `LIVE_QUERY_STATUSES`.
  unfoldable pub list_live : ReconciliationPolicy → World → Reply (List SessionRecord) × World
  unfolding owner_environment
  list_live p w =
      let (running, w') = list_sessions SessionStatus.running (owner_environment p) w in
      list_pending p running w'

  -- The report of a pass that judged its sessions.
  unfoldable pub judged_report :
      Bool → ReconciliationPolicy → ℕ → ℕ → ℕ → List SessionOutcome → ReconciliationReport
  judged_report execute p started finished rows rs = record {
    mode = if execute then codes "execute" else codes "dry_run";
    environment = p.environment;
    started_at = started;
    finished_at = finished;
    local_session_count = rows;
    sessions = rs;
    anomalies = anomalies rs;
    provider_error = none;
    local_state_writable = writable;
  }

  -- The end of a pass in execute mode; `none` where `_release` raised.
  unfoldable pub finish :
      ReconciliationPolicy
      → ℕ
      → ℕ
      → Option (List SessionOutcome)
      → World
      → Option ReconciliationReport × World
  unfolding judged_report
  finish p started rows none w = (none, w)
  finish p started rows (some rs) w =
      let (finished, w') = clock w in (some (judged_report true p started finished rows rs), w')

  -- `reconcile` after the provider's list and the first snapshot. A dry run marks its orphans after
  -- the anomalies are taken, which the mark does not change.
  unfoldable pub judge_and_release :
      Bool
      → ReconciliationPolicy
      → ℕ
      → List SessionRecord
      → Dict Text LocalBrowserSession
      → World
      → Option ReconciliationReport × World
  unfolding judged_report Disposition-discrete
  judge_and_release execute p started sessions local w =
      let (now, w₁) = clock w in
      let records = map (λ s. classify p s local now) sessions in
      if execute
      then (let (released, w₂) = release p sessions records w₁ in
          finish p started (length local) released w₂)
      else (let (finished, w₂) = clock w₁ in
          let report =
            judged_report false p started finished (length local) (map mark_dry_run records) in
          (some (record report { anomalies = anomalies records }), w₂))

  -- `reconcile` after the first snapshot; `none` where that raised.
  unfoldable pub after_snapshot :
      Bool
      → ReconciliationPolicy
      → ℕ
      → List SessionRecord
      → Option (Dict Text LocalBrowserSession)
      → World
      → Option ReconciliationReport × World
  after_snapshot execute p started sessions none w = (none, w)
  after_snapshot execute p started sessions (some rows) w =
      judge_and_release execute p started sessions rows w

  -- `reconcile` after the provider's list: its failure, or the first snapshot.
  unfoldable pub after_listing :
      Bool
      → ReconciliationPolicy
      → ℕ
      → Reply (List SessionRecord)
      → World
      → Option ReconciliationReport × World
  after_listing execute p started (Reply.err e) w =
      let (finished, w') = clock w in
      (
        some (record {
          mode = if execute then codes "execute" else codes "dry_run";
          environment = p.environment;
          started_at = started;
          finished_at = finished;
          local_session_count = 0;
          sessions = [];
          anomalies = [];
          provider_error = some e;
          local_state_writable = writable;
        }),
        w',
      )
  after_listing execute p started (Reply.ok sessions) w =
      let (local, w') = snapshot w in after_snapshot execute p started sessions local w'

  -- `BrowserReconciliationService.reconcile`; `none` where `LocalStateUnavailableError` is raised.
  unfoldable pub reconcile :
      Bool → ReconciliationPolicy → World → Option ReconciliationReport × World
  reconcile execute p w =
      let (started, w') = clock w in
      let (listed, w'') = list_live p w' in after_listing execute p started listed w''
