-- ===== src/Tests/Releases.antt =====
-- A provider with one running session (backend/app/services/browser_reconciliation.py).
use web_accessible.Prelude.{
  put, nat_eq, Text, codes, text_eq, text_beq, strip, Dict, lookup, set_default, ℕ, ◌+◌, ◌≤◌, ◌≡◌,
  refl, ◌≢◌, ◌⊎◌, true, false, Option, none, some, [], ◌∷◌,
}
use web_accessible.Uuid.{canonical_uuid, sample_uuid}
use web_accessible.Reconcile.Types.{
  SessionStatus, Disposition, ReconciliationPolicy, LocalBrowserSession, is_released, SessionRecord,
  MetaValue,
}
use web_accessible.Reconcile.Classify.{
  owner_key, owner_session_id, agent_surface_used, elapsed, remaining, is_past, is_below, lease_age,
  classify,
}
use web_accessible.Reconcile.Judgement.{IsOurs, orphaned_is_ours, lease_protects}
use web_accessible.Reconcile.Report.{counts}
use web_accessible.Reconcile.Release.{
  Backend, Reply, reconcile, list_live, list_pending, after_listing, after_snapshot,
  judge_and_release, release, release_confirmed, release_all, release_one, spend, terminate_session,
  finish,
}
use web_accessible.Reconcile.Soundness.{
  classify-IsFresh, IsFresh-IsSound, IsSound, IsBackedReport, reconcile-IsSound,
}
use web_accessible.Reconcile.Budget.{IsCounter, terminate_calls_bounded}
use web_accessible.Reconcile.Totals.{counts_consistent}

abbrev pub strict : ReconciliationPolicy
strict = record {
  environment = codes "test";
  lease_ttl = 1000;
  lease_grace = 100;
  startup_grace = 50;
  max_terminations = 1;
  match_environment = false;
}

abbrev running_session : SessionRecord
running_session = record {
  id = codes "bb-1";
  status = SessionStatus.running;
  region = codes "us";
  created_at = some 100;
  expires_at = some 9000;
  user_metadata = (owner_key, MetaValue.text sample_uuid) ∷ [];
}

abbrev leased_row : LocalBrowserSession
leased_row = record {
  web_session_id = sample_uuid;
  provider_session_id = codes "bb-1";
  status = codes "connected";
  created_at = some 100;
  attached_at = some 120;
  stopped_at = none;
}

-- The world counts the calls of the terminate verb.
abbrev pub one_session : Backend
one_session = record {
  World = ℕ;
  list_sessions = λ s o w. elim s [
    | SessionStatus.running ↦ (Reply.ok (running_session ∷ []), w)
    | _ ↦ (Reply.ok [], w)
  ];
  terminate = λ i w.
      (Reply.ok (record { status = SessionStatus.completed; already_terminal = false }), w + 1);
  writable = true;
  snapshot = λ w. (some [], w);
  record_release = λ i r w. (some true, w);
  clock = λ w. (500, w);
}

listing_quiet :
    (s : SessionStatus) (o : Option Text) (w : ℕ) → (one_session.list_sessions s o w).1 ≡ w
listing_quiet SessionStatus.running o w = refl
listing_quiet _ o w = refl

pub counts_calls : IsCounter one_session (λ w. w)
counts_calls = record {
  list_quiet = listing_quiet;
  snapshot_quiet = λ w. refl;
  release_quiet = λ i r w. refl;
  clock_quiet = λ w. refl;
  terminate_counts = λ i w. refl;
}

one_call : (reconcile one_session true strict 0).1 ≡ 1
unfolding reconcile list_live list_pending after_listing after_snapshot judge_and_release release
    release_confirmed release_all release_one spend terminate_session classify finish
    owner_session_id agent_surface_used canonical_uuid set_default lookup text_beq strip put
one_call = refl

reconcile-IsSound_example : IsBackedReport one_session (reconcile one_session true strict 0).0
reconcile-IsSound_example = reconcile-IsSound one_session true strict 0

terminate_calls_bounded_example : (reconcile one_session true strict 0).1 ≤ 0 + 1
terminate_calls_bounded_example =
    terminate_calls_bounded one_session (λ (w : ℕ). w) counts_calls true strict 0

unclaimed : (classify strict running_session [] 500).disposition ≡ Disposition.orphaned
unfolding classify owner_session_id agent_surface_used canonical_uuid lookup text_beq strip
unclaimed = refl

orphaned_is_ours_example :
    IsOurs strict running_session [] 500
    × ((is_past (remaining 500 (some 9000)) ≡ true)
        ⊎ (is_below (elapsed 500 (some 100)) 50 ≡ false))
orphaned_is_ours_example = orphaned_is_ours strict running_session [] 500 unclaimed

owned_by_sample : owner_session_id running_session.user_metadata ≡ some sample_uuid
unfolding owner_session_id canonical_uuid lookup text_beq strip
owned_by_sample = refl

abbrev leases : Dict Text LocalBrowserSession
leases = (sample_uuid, leased_row) ∷ []

lease_protects_example :
    (classify strict running_session leases 500).disposition ≢ Disposition.orphaned
unfolding lookup text_beq is_released lease_age
lease_protects_example =
    lease_protects strict running_session leases 500 sample_uuid owned_by_sample
      (leased_row, refl, refl, refl, refl) refl

unreleased-IsSound : IsSound (classify strict running_session [] 500)
unreleased-IsSound =
    IsFresh-IsSound (classify strict running_session [] 500)
      (classify-IsFresh strict running_session [] 500)

counts_consistent_example :
    let c = counts (classify strict running_session [] 500 ∷ []) in
    (c.inspected ≡ c.active + c.orphaned + c.skipped)
    × (c.terminated + c.failed + c.deferred ≤ c.orphaned)
    × (c.already_terminal ≤ c.terminated)
counts_consistent_example =
    counts_consistent (classify strict running_session [] 500 ∷ []) (unreleased-IsSound, tt)
