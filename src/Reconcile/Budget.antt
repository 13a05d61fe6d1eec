-- ===== src/Reconcile/Budget.antt =====
-- How often a pass calls the provider's terminate verb
-- (backend/app/services/browser_reconciliation.py).
use web_accessible.Prelude.{
  nat_eq, Text, codes, text_eq, Dict, ℕ, zero, suc, ◌+◌, ◌≤◌, ◌≡◌, refl, ◌∙◌, inl, inr, Bool, true,
  false, Option, none, some, List, [], ◌∷◌, ◌++◌, map, arith, if◌then◌else◌, Bool-cases, length,
  any,
}
use web_accessible.Reconcile.Types.{
  SessionStatus, owner_environment, reason_value, ReconciliationPolicy, LocalBrowserSession,
  SessionRecord, SessionOutcome,
}
use web_accessible.Reconcile.Classify.{classify}
use web_accessible.Reconcile.Release.{
  Backend, Reply, settle, write_back, terminate_session, spend, release_one, release_all,
  release_confirmed, release, list_pending, list_live, finish, judge_and_release, after_snapshot,
  after_listing, reconcile, is_orphan, index_sessions,
}

-- A counter of the terminate calls that a world has seen: no other verb moves it.
pub record IsCounter (b : Backend) (calls : b.World → ℕ) : Type 0 where
  pub list_quiet :
      (s : SessionStatus) (o : Option Text) (w : b.World)
      → calls (b.list_sessions s o w).1 ≡ calls w
  pub snapshot_quiet : (w : b.World) → calls (b.snapshot w).1 ≡ calls w
  pub release_quiet : (i r : Text) (w : b.World) → calls (b.record_release i r w).1 ≡ calls w
  pub clock_quiet : (w : b.World) → calls (b.clock w).1 ≡ calls w
  pub terminate_counts : (i : Text) (w : b.World) → calls (b.terminate i w).1 ≡ calls w + 1

-- The terminations that a pass may make.
abbrev pub allowance : Bool → ReconciliationPolicy → ℕ
allowance execute p = if execute then p.max_terminations else 0

module _ (b : Backend) (calls : b.World → ℕ) (counter : IsCounter b calls) where
  open b use {World}

  write_back_quiet :
      (r : SessionOutcome) (go : Bool) (w : World) → calls (write_back b (r, go) w).1 ≡ calls w
  unfolding write_back
  write_back_quiet r go w = ground (
    arith,
    counter.release_quiet r.provider_session_id (codes "reconciled:" ++ reason_value r.reason) w,
  )

  terminate_once :
      (r : SessionOutcome) (w : World) → calls (terminate_session b r w).1 ≡ calls w + 1
  unfolding terminate_session
  terminate_once r w =
      let (reply, w') = b.terminate r.provider_session_id w in
      write_back_quiet (settle r reply).0 (settle r reply).1 w'
      ∙ counter.terminate_counts r.provider_session_id w

  spend_bound :
      (r : SessionOutcome) (budget : ℕ) (w : World)
      → calls (spend b r budget w).2 + (spend b r budget w).1 ≡ calls w + budget
  unfolding spend
  spend_bound r zero w = refl
  spend_bound r (suc budget) w = omega (arith, terminate_once r w)

  module _ (p : ReconciliationPolicy) (by_id : Dict Text SessionRecord)
      (local : Dict Text LocalBrowserSession) (now : ℕ) where
    one_bound :
        (r : SessionOutcome) (budget : ℕ) (w : World)
        → calls (release_one b p by_id local now r budget w).2
            + (release_one b p by_id local now r budget w).1
          ≡ calls w + budget
    unfolding release_one
    one_bound r budget w = ground (arith, spend_bound r budget w)

    all_bound :
        (rs : List SessionOutcome) (budget : ℕ) (w : World)
        → calls (release_all b p by_id local now rs budget w).1 ≤ calls w + budget
    unfolding release_all
    all_bound [] budget w = omega arith
    all_bound (r ∷ rs) budget w = elim (Bool-cases (is_orphan r)) [
      | inl o ↦ rw o (
          omega (
            arith,
            one_bound r budget w,
            all_bound rs (release_one b p by_id local now r budget w).1
                (release_one b p by_id local now r budget w).2,
          ))
      | inr n ↦ rw n (all_bound rs budget w)
    ]

  confirmed_bound :
      (p : ReconciliationPolicy) (ss : List SessionRecord) (rs : List SessionOutcome)
      (local : Option (Dict Text LocalBrowserSession)) (w : World)
      → calls (release_confirmed b p ss rs local w).1 ≤ calls w + p.max_terminations
  unfolding release_confirmed
  confirmed_bound p ss rs none w = omega arith
  confirmed_bound p ss rs (some local) w = omega (
    arith,
    counter.clock_quiet w,
    all_bound p (index_sessions ss []) local (b.clock w).0 rs p.max_terminations (b.clock w).1,
  )

  release_bound :
      (p : ReconciliationPolicy) (ss : List SessionRecord) (rs : List SessionOutcome) (w : World)
      → calls (release b p ss rs w).1 ≤ calls w + p.max_terminations
  unfolding release
  release_bound p ss rs w = elim (Bool-cases (any is_orphan rs)) [
    | inl found ↦ rw found (
        omega (
          arith,
          counter.snapshot_quiet w,
          confirmed_bound p ss rs (b.snapshot w).0 (b.snapshot w).1,
        ))
    | inr quiet ↦ rw quiet (omega arith)
  ]

  finish_quiet :
      (p : ReconciliationPolicy) (started rows : ℕ) (rs : Option (List SessionOutcome)) (w : World)
      → calls (finish b p started rows rs w).1 ≡ calls w
  unfolding finish
  finish_quiet p started rows none w = refl
  finish_quiet p started rows (some rs) w = counter.clock_quiet w

  judge_bound :
      (execute : Bool) (p : ReconciliationPolicy) (started : ℕ) (ss : List SessionRecord)
      (local : Dict Text LocalBrowserSession) (w : World)
      → calls (judge_and_release b execute p started ss local w).1 ≤ calls w + allowance execute p
  unfolding judge_and_release
  judge_bound true p started ss local w =
      let now = (b.clock w).0 in
      let rs = map (λ s. classify p s local now) ss in
      omega (
        arith,
        counter.clock_quiet w,
        release_bound p ss rs (b.clock w).1,
        finish_quiet p started (length local) (release b p ss rs (b.clock w).1).0
            (release b p ss rs (b.clock w).1).1,
      )
  judge_bound false p started ss local w =
      omega (arith, counter.clock_quiet w, counter.clock_quiet (b.clock w).1)

  snapshot_bound :
      (execute : Bool) (p : ReconciliationPolicy) (started : ℕ) (ss : List SessionRecord)
      (local : Option (Dict Text LocalBrowserSession)) (w : World)
      → calls (after_snapshot b execute p started ss local w).1 ≤ calls w + allowance execute p
  unfolding after_snapshot
  snapshot_bound execute p started ss none w = omega arith
  snapshot_bound execute p started ss (some local) w = judge_bound execute p started ss local w

  listing_bound :
      (execute : Bool) (p : ReconciliationPolicy) (started : ℕ)
      (listed : Reply (List SessionRecord)) (w : World)
      → calls (after_listing b execute p started listed w).1 ≤ calls w + allowance execute p
  unfolding after_listing
  listing_bound execute p started (Reply.err e) w = omega (arith, counter.clock_quiet w)
  listing_bound execute p started (Reply.ok ss) w = omega (
    arith,
    counter.snapshot_quiet w,
    snapshot_bound execute p started ss (b.snapshot w).0 (b.snapshot w).1,
  )

  pending_quiet :
      (p : ReconciliationPolicy) (running : Reply (List SessionRecord)) (w : World)
      → calls (list_pending b p running w).1 ≡ calls w
  unfolding list_pending
  pending_quiet p (Reply.err e) w = refl
  pending_quiet p (Reply.ok first) w =
      ground (arith, counter.list_quiet SessionStatus.pending (owner_environment p) w)

  live_quiet : (p : ReconciliationPolicy) (w : World) → calls (list_live b p w).1 ≡ calls w
  unfolding list_live
  live_quiet p w = pending_quiet p _ _ ∙ counter.list_quiet SessionStatus.running _ w

  -- A pass in execute mode calls the provider's terminate verb at most `max_terminations` times, and
  -- a dry run never does, whatever the provider and the store answer.
  pub terminate_calls_bounded :
      (execute : Bool) (p : ReconciliationPolicy) (w : World)
      → calls (reconcile b execute p w).1 ≤ calls w + allowance execute p
  unfolding reconcile
  terminate_calls_bounded execute p w = omega (
    arith,
    counter.clock_quiet w,
    live_quiet p (b.clock w).1,
    listing_bound execute p (b.clock w).0 (list_live b p (b.clock w).1).0
        (list_live b p (b.clock w).1).1,
  )
