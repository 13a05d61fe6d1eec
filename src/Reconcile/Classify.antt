-- ===== src/Reconcile/Classify.antt =====
-- The judgement of one provider session: `_classify` and the readers of its metadata
-- (backend/app/services/browser_reconciliation.py).
use web_accessible.Prelude.{
  ◌==◌, nat_eq, contains, Text, codes, text_eq, is_nonempty, text_beq, lower, strip, Dict, lookup,
  ℕ, zero, ◌+◌, Bool, true, false, not, ◌&&◌, Option, none, some, [], ◌∷◌, if◌then◌else◌, sub_ℕ,
  leb_ℤ, ltb_ℤ, ℤ, pos,
}
use web_accessible.Uuid.{canonical_uuid}
use web_accessible.Reconcile.Types.{
  is_live, Disposition, Reason, Outcome, ReconciliationPolicy, LocalBrowserSession, is_released,
  MetaValue, SessionRecord, ShownStatus, SessionOutcome,
}

abbrev pub owner_key : Text
owner_key = codes "webaccessibleSessionId"

abbrev pub environment_key : Text
environment_key = codes "environment"

abbrev pub agent_surface_key : Text
agent_surface_key = codes "agentSurfaceUsed"

owner_of : Option MetaValue → Option Text
owner_of (some (MetaValue.text raw)) =
    let value = strip raw in if is_nonempty value then canonical_uuid value else none
owner_of _ = none

-- `_owner_session_id`
unfoldable pub owner_session_id : Dict Text MetaValue → Option Text
unfolding owner_of
owner_session_id metadata = owner_of (lookup owner_key metadata)

claims_agent : Option MetaValue → Bool
unfolding text_beq
claims_agent (some (MetaValue.bool b)) = b
claims_agent (some (MetaValue.text raw)) =
    contains (codes "true" ∷ codes "1" ∷ codes "yes" ∷ []) (lower (strip raw))
claims_agent (some (MetaValue.number (pos zero))) = false
claims_agent (some (MetaValue.number n)) = true
claims_agent (some MetaValue.other) = false
claims_agent none = false

-- `_agent_surface_used`
unfoldable pub agent_surface_used : Dict Text MetaValue → Bool
unfolding claims_agent
agent_surface_used metadata = claims_agent (lookup agent_surface_key metadata)

names_environment : Text → Option MetaValue → Bool
names_environment environment (some (MetaValue.text value)) =
    lower (strip value) == lower (strip environment)
names_environment environment _ = false

-- `_environment_matches`
unfoldable pub environment_matches : Dict Text MetaValue → Text → Bool
unfolding names_environment
environment_matches metadata environment =
    names_environment environment (lookup environment_key metadata)

-- `_canonical_id`
unfoldable pub canonical_id : Text → Text
canonical_id value =
    let text = strip value in
    if is_nonempty text then elim (canonical_uuid text) [ none ↦ text | some id ↦ id ] else []

-- `(a - b).total_seconds() if b else None`
abbrev pub elapsed : ℕ → Option ℕ → Option ℤ
elapsed now none = none
elapsed now (some start) = some (sub_ℕ now start)

abbrev pub remaining : ℕ → Option ℕ → Option ℤ
remaining now none = none
remaining now (some end) = some (sub_ℕ end now)

-- `value is not None and value <= 0`
abbrev pub is_past : Option ℤ → Bool
is_past none = false
is_past (some d) = leb_ℤ d (pos 0)

-- `value is not None and value < bound`
abbrev pub is_below : Option ℤ → ℕ → Bool
is_below none bound = false
is_below (some d) bound = ltb_ℤ d (pos bound)

-- `value is not None and value > bound`
abbrev pub is_above : Option ℤ → ℕ → Bool
is_above none bound = false
is_above (some d) bound = ltb_ℤ (pos bound) d

-- `a or b`, where an instant is never falsy.
abbrev pub first_some {ℓ} : {A : Type ℓ} → Option A → Option A → Option A
first_some none b = b
first_some (some a) b = some a

-- `build` of `_classify`
abbrev build : SessionRecord → ℕ → Bool → Option Text → Disposition → Reason → SessionOutcome
build session now owned local_status disposition reason = record {
  provider_session_id = session.id;
  provider_status = ShownStatus.listed session.status;
  region = session.region;
  owned = owned;
  web_session_id = owner_session_id session.user_metadata;
  disposition = disposition;
  reason = reason;
  age = elapsed now session.created_at;
  expires_in = remaining now session.expires_at;
  local_status = local_status;
  outcome = Outcome.none;
  provider_confirmed = false;
  local_state_updated = false;
  error_code = none;
  retryable = none;
}

-- `lease_age`: since the row was attached, or created, or the provider session was.
unfoldable pub lease_age : SessionRecord → LocalBrowserSession → ℕ → Option ℤ
lease_age session row now =
    let started = first_some row.attached_at (first_some row.created_at session.created_at) in
    first_some (elapsed now started) (elapsed now session.created_at)

-- The tests of `_classify` on the operational row of the owner.
unfoldable pub judge_row :
    ReconciliationPolicy → SessionRecord → ℕ → Option LocalBrowserSession → SessionOutcome
judge_row p session now none =
    build session now true none Disposition.orphaned Reason.unknown_local_session
judge_row p session now (some row) =
    if not (row.provider_session_id == session.id)
    then build session now true (some row.status) Disposition.orphaned
        Reason.provider_session_superseded
    else if is_released row
    then build session now true (some row.status) Disposition.orphaned Reason.local_session_released
    else if is_above (lease_age session row now) (p.lease_ttl + p.lease_grace)
    then build session now true (some row.status) Disposition.orphaned Reason.lease_expired
    else build session now true (some row.status) Disposition.active Reason.lease_held

-- The tests of `_classify` once an owner is known.
unfoldable pub judge_owned :
    ReconciliationPolicy → SessionRecord → Dict Text LocalBrowserSession → ℕ → Text → SessionOutcome
judge_owned p session local now owner =
    if agent_surface_used session.user_metadata
    then build session now false none Disposition.skipped Reason.agent_surface_flagged
    else if p.match_environment && not (environment_matches session.user_metadata p.environment)
    then build session now false none Disposition.skipped Reason.foreign_environment
    else if is_past (remaining now session.expires_at)
    then build session now true none Disposition.orphaned Reason.provider_expiry_passed
    else if is_below (elapsed now session.created_at) p.startup_grace
    then build session now true none Disposition.skipped Reason.within_startup_grace
    else judge_row p session now (lookup owner local)

-- `owner_id is not None`
abbrev pub is_some {ℓ} : {A : Type ℓ} → Option A → Bool
is_some none = false
is_some (some a) = true

-- `_classify`
unfoldable pub classify :
    ReconciliationPolicy → SessionRecord → Dict Text LocalBrowserSession → ℕ → SessionOutcome
unfolding judge_owned judge_row
classify p session local now =
    if not (is_live session.status)
    then build session now (is_some (owner_session_id session.user_metadata)) none
        Disposition.skipped Reason.provider_already_terminal
    else elim (owner_session_id session.user_metadata) [
      | none ↦ build session now false none Disposition.skipped Reason.not_webaccessible_owned
      | some owner ↦ judge_owned p session local now owner
    ]
