-- ===== src/Reconcile/Report.antt =====
-- The report of a pass, its totals and its anomalies
-- (backend/app/services/browser_reconciliation.py).
use web_accessible.Prelude.{
  ◌==◌, nat_eq, Text, text_eq, ℕ, Bool, true, false, ◌||◌, Option, none, some, List, [], ◌∷◌, ◌++◌,
  if◌then◌else◌, length, count,
}
use web_accessible.Reconcile.Types.{
  Disposition, Disposition-discrete, disposition_eq, Reason, Outcome, Outcome-discrete, outcome_eq,
  SessionOutcome,
}

-- `BrowserbaseProviderError`
pub record ProviderError : Type 0 where
  pub code : Text
  pub retryable : Bool
  pub status_code : Option ℕ

pub data AnomalyKind : Type 0 where
  agent_surface_metadata_present termination_failed termination_limit_reached : AnomalyKind

pub data Severity : Type 0 where
  critical high medium : Severity

pub record Anomaly : Type 0 where
  pub kind : AnomalyKind
  pub provider_session_id : Text
  pub error_code : Option Text
  pub severity : Severity

pub record ReconciliationReport : Type 0 where
  pub mode : Text
  pub environment : Text
  pub started_at : ℕ
  pub finished_at : ℕ
  pub local_session_count : ℕ
  pub sessions : List SessionOutcome
  pub anomalies : List Anomaly
  pub provider_error : Option ProviderError
  pub local_state_writable : Bool

abbrev is_flagged : Reason → Bool
is_flagged Reason.agent_surface_flagged = true
is_flagged _ = false

abbrev anomaly : AnomalyKind → Severity → Option Text → SessionOutcome → Anomaly
anomaly kind severity code r = record {
  kind = kind;
  provider_session_id = r.provider_session_id;
  error_code = code;
  severity = severity;
}

-- The anomalies of one record.
unfoldable pub anomalies_of : SessionOutcome → List Anomaly
unfolding Outcome-discrete
anomalies_of r =
    (if is_flagged r.reason
      then anomaly AnomalyKind.agent_surface_metadata_present Severity.critical none r ∷ []
      else [])
    ++ ((if r.outcome == Outcome.failed
          then anomaly AnomalyKind.termination_failed Severity.high r.error_code r ∷ []
          else [])
        ++ (if r.outcome == Outcome.deferred_termination_limit
            then anomaly AnomalyKind.termination_limit_reached Severity.medium none r ∷ []
            else []))

-- `_anomalies`
unfoldable pub anomalies : List SessionOutcome → List Anomaly
unfolding anomalies_of
anomalies [] = []
anomalies (r ∷ rs) = anomalies_of r ++ anomalies rs

pub record Counts : Type 0 where
  pub inspected : ℕ
  pub owned : ℕ
  pub active : ℕ
  pub orphaned : ℕ
  pub terminated : ℕ
  pub already_terminal : ℕ
  pub failed : ℕ
  pub skipped : ℕ
  pub deferred : ℕ

abbrev pub has_disposition : Disposition → SessionOutcome → Bool
has_disposition d r = r.disposition == d

abbrev pub has_outcome : Outcome → SessionOutcome → Bool
has_outcome o r = r.outcome == o

-- `ReconciliationReport.counts`
unfoldable pub counts : List SessionOutcome → Counts
unfolding Disposition-discrete Outcome-discrete
counts rs = record {
  inspected = length rs;
  owned = count (λ r. r.owned) rs;
  active = count (has_disposition Disposition.active) rs;
  orphaned = count (has_disposition Disposition.orphaned) rs;
  terminated =
      count (λ r. has_outcome Outcome.terminated r || has_outcome Outcome.already_terminal r) rs;
  already_terminal = count (has_outcome Outcome.already_terminal) rs;
  failed = count (has_outcome Outcome.failed) rs;
  skipped = count (has_disposition Disposition.skipped) rs;
  deferred = count (has_outcome Outcome.deferred_termination_limit) rs;
}

-- `ReconciliationReport.ok`
unfoldable pub is_ok : ReconciliationReport → Bool
unfolding counts
is_ok report = elim report.provider_error [
  | none ↦ (counts report.sessions).failed == 0
  | some e ↦ false
]
