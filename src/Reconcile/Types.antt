-- ===== src/Reconcile/Types.antt =====
-- The records and enumerations of a reconciliation pass
-- (backend/app/services/browser_reconciliation.py, backend/app/integrations/browserbase/client.py).
-- An instant is a number of microseconds, and so is a bound of the policy.
use web_accessible.Prelude.{
  Comparable, ◌==◌, nat_eq, eq_of_discrete, Text, codes, text_eq, text_beq, is_blank, Dict, ℕ, Bool,
  true, false, not, ◌&&◌, ◌||◌, Option, some, ltb, if◌then◌else◌, ℤ,
}

pub data SessionStatus : Type 0 where
  pending running error timed_out completed : SessionStatus

unfoldable pub SessionStatus-discrete : Discrete SessionStatus
SessionStatus-discrete = hlevel

-- `LIVE_SESSION_STATUSES`
abbrev pub is_live : SessionStatus → Bool
is_live SessionStatus.pending = true
is_live SessionStatus.running = true
is_live _ = false

-- `TERMINAL_SESSION_STATUSES`
abbrev pub is_terminal_status : SessionStatus → Bool
is_terminal_status SessionStatus.error = true
is_terminal_status SessionStatus.timed_out = true
is_terminal_status SessionStatus.completed = true
is_terminal_status _ = false

pub data Disposition : Type 0 where
  active orphaned skipped : Disposition

unfoldable pub Disposition-discrete : Discrete Disposition
Disposition-discrete = hlevel

instance abbrev pub disposition_eq : Comparable Disposition
disposition_eq = eq_of_discrete Disposition-discrete

pub data Reason : Type 0 where
  lease_held reclaimed_by_backend unknown_local_session local_session_released : Reason
  provider_session_superseded provider_expiry_passed lease_expired : Reason
  not_webaccessible_owned foreign_environment agent_surface_flagged : Reason
  provider_already_terminal within_startup_grace : Reason

-- The values of `Reason`, which a released row records.
unfoldable pub reason_value : Reason → Text
reason_value Reason.lease_held = codes "lease_held"
reason_value Reason.reclaimed_by_backend = codes "reclaimed_by_backend"
reason_value Reason.unknown_local_session = codes "unknown_local_session"
reason_value Reason.local_session_released = codes "local_session_released"
reason_value Reason.provider_session_superseded = codes "provider_session_superseded"
reason_value Reason.provider_expiry_passed = codes "provider_expiry_passed"
reason_value Reason.lease_expired = codes "lease_expired"
reason_value Reason.not_webaccessible_owned = codes "not_webaccessible_owned"
reason_value Reason.foreign_environment = codes "foreign_environment"
reason_value Reason.agent_surface_flagged = codes "agent_surface_flagged"
reason_value Reason.provider_already_terminal = codes "provider_already_terminal"
reason_value Reason.within_startup_grace = codes "within_startup_grace"

pub data Outcome : Type 0 where
  none dry_run terminated already_terminal failed deferred_termination_limit : Outcome

unfoldable pub Outcome-discrete : Discrete Outcome
Outcome-discrete = hlevel

instance abbrev pub outcome_eq : Comparable Outcome
outcome_eq = eq_of_discrete Outcome-discrete

pub record ReconciliationPolicy : Type 0 where
  pub environment : Text
  pub lease_ttl : ℕ
  pub lease_grace : ℕ
  pub startup_grace : ℕ
  pub max_terminations : ℕ
  pub match_environment : Bool

-- `ReconciliationPolicy.__post_init__`: the numbers of the model are never negative, which leaves
-- two of its tests.
unfoldable pub is_valid_policy : ReconciliationPolicy → Bool
unfolding is_blank
is_valid_policy p = not (is_blank p.environment) && ltb 0 p.lease_ttl

-- `owner_environment`
unfoldable pub owner_environment : ReconciliationPolicy → Option Text
owner_environment p = if p.match_environment then some p.environment else Option.none

pub record LocalBrowserSession : Type 0 where
  pub web_session_id : Text
  pub provider_session_id : Text
  pub status : Text
  pub created_at : Option ℕ
  pub attached_at : Option ℕ
  pub stopped_at : Option ℕ

-- `released`: the status is one of `LOCAL_RELEASED_STATUSES`.
unfoldable pub is_released : LocalBrowserSession → Bool
unfolding text_beq
is_released row = row.status == codes "stopped" || row.status == codes "termination_failed"

-- A value of the provider's metadata.
pub data MetaValue : Type 0 where
  bool : Bool → MetaValue
  text : Text → MetaValue
  number : ℤ → MetaValue
  other : MetaValue

pub record SessionRecord : Type 0 where
  pub id : Text
  pub status : SessionStatus
  pub region : Text
  pub created_at : Option ℕ
  pub expires_at : Option ℕ
  pub user_metadata : Dict Text MetaValue

-- The status of a session as a report shows it.
pub data ShownStatus : Type 0 where
  listed : SessionStatus → ShownStatus
  gone : ShownStatus

pub record SessionOutcome : Type 0 where
  pub provider_session_id : Text
  pub provider_status : ShownStatus
  pub region : Text
  pub owned : Bool
  pub web_session_id : Option Text
  pub disposition : Disposition
  pub reason : Reason
  pub age : Option ℤ
  pub expires_in : Option ℤ
  pub local_status : Option Text
  pub outcome : Outcome
  pub provider_confirmed : Bool
  pub local_state_updated : Bool
  pub error_code : Option Text
  pub retryable : Option Bool
