-- ===== src/Reconcile/Judgement.antt =====
-- Which provider sessions a pass may release (backend/app/services/browser_reconciliation.py).
use web_accessible.Prelude.{
  nat_eq, Text, text_eq, text_beq_iff, Dict, lookup, ℕ, ◌+◌, ◌≡◌, ◌≢◌, ◌⊎◌, true, false, some,
  arith,
}
use web_accessible.Reconcile.Types.{
  is_live, Disposition, ReconciliationPolicy, LocalBrowserSession, is_released, SessionRecord,
}
use web_accessible.Reconcile.Classify.{
  owner_session_id, agent_surface_used, environment_matches, elapsed, remaining, is_past, is_below,
  is_above, lease_age, is_some, classify,
}

module _ (p : ReconciliationPolicy) (s : SessionRecord) (local : Dict Text LocalBrowserSession)
    (now : ℕ) where
  -- The session is live and carries this deployment's ownership metadata.
  abbrev pub IsOurs : Type 0
  IsOurs =
      (is_live s.status ≡ true)
      × (is_some (owner_session_id s.user_metadata) ≡ true)
      × (agent_surface_used s.user_metadata ≡ false)
      × ((p.match_environment ≡ false) ⊎ (environment_matches s.user_metadata p.environment ≡ true))

  -- A session is judged orphaned only if it is live, is owned, is not flagged for an agent surface
  -- and belongs to the policy's environment where that is matched; and then either the provider's
  -- deadline has passed, or it is not younger than the startup grace.
  pub orphaned_is_ours :
      (classify p s local now).disposition ≡ Disposition.orphaned
      → IsOurs
        × ((is_past (remaining now s.expires_at) ≡ true)
            ⊎ (is_below (elapsed now s.created_at) p.startup_grace ≡ false))
  unfolding classify
  orphaned_is_ours h = ground arith

  abbrev pub HoldsLease : Text → Type 0
  HoldsLease owner =
      (row : LocalBrowserSession) × (lookup owner local ≡ some row)
      × (row.provider_session_id ≡ s.id)
      × (is_released row ≡ false)
      × (is_above (lease_age s row now) (p.lease_ttl + p.lease_grace) ≡ false)

  -- A session of which the operational row of its owner names it, is not released and is within its
  -- lease is not judged orphaned, unless the provider's deadline has passed.
  pub lease_protects :
      (owner : Text)
      → owner_session_id s.user_metadata ≡ some owner
      → HoldsLease owner
      → is_past (remaining now s.expires_at) ≡ false
      → (classify p s local now).disposition ≢ Disposition.orphaned
  unfolding classify
  lease_protects owner o (row, found, same, held, fresh) e =
      ground (arith, text_beq_iff row.provider_session_id s.id)
