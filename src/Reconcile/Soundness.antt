-- ===== src/Reconcile/Soundness.antt =====
-- A pass claims no release that the provider did not confirm, and acts on orphans only
-- (backend/app/services/browser_reconciliation.py).
use web_accessible.Prelude.{
  ◌==◌, nat_eq, Text, text_eq, Dict, lookup, ℕ, zero, suc, ◌≡◌, sym, ◌∙◌, ◌≢◌, ◌⊎◌, inl, inr, Bool,
  true, false, Option, none, some, List, [], ◌∷◌, map, arith, Bool-cases, Option-cases, length, any,
  All,
}
use web_accessible.Reconcile.Types.{
  SessionStatus, disposition_eq, Disposition, Outcome, ReconciliationPolicy, LocalBrowserSession,
  SessionRecord, SessionOutcome,
}
use web_accessible.Reconcile.Classify.{classify}
use web_accessible.Reconcile.Report.{ReconciliationReport}
use web_accessible.Reconcile.Release.{
  reclaim, Backend, Reply, TerminationResult, settle, write_back, terminate_session, spend,
  index_sessions, release_confirmed, finish, after_listing, after_snapshot, list_live, release_one,
  release_all, release, judge_and_release, reconcile, mark_dry_run, is_orphan,
}

-- A record that no step of the release has touched.
pub record IsFresh (r : SessionOutcome) : Type 0 where
  pub untouched : r.outcome ≡ Outcome.none
  pub unconfirmed : r.provider_confirmed ≡ false
  pub unwritten : r.local_state_updated ≡ false

-- The provider confirmed exactly what is reported terminated; only an orphan has an outcome; the
-- store was written only after a confirmation.
pub record IsSound (r : SessionOutcome) : Type 0 where
  pub confirmed :
      (r.provider_confirmed ≡ true)
      → (r.outcome ≡ Outcome.terminated) ⊎ (r.outcome ≡ Outcome.already_terminal)
  pub terminated_confirmed : r.outcome ≡ Outcome.terminated → r.provider_confirmed ≡ true
  pub already_confirmed : r.outcome ≡ Outcome.already_terminal → r.provider_confirmed ≡ true
  pub orphans_only : r.outcome ≢ Outcome.none → r.disposition ≡ Disposition.orphaned
  pub written_confirmed : r.local_state_updated ≡ true → r.provider_confirmed ≡ true

pub classify-IsFresh :
    (p : ReconciliationPolicy) (s : SessionRecord) (local : Dict Text LocalBrowserSession) (now : ℕ)
    → IsFresh (classify p s local now)
unfolding classify
classify-IsFresh p s local now = ground arith

pub IsFresh-IsSound : (r : SessionOutcome) → IsFresh r → IsSound r
IsFresh-IsSound r f = ground arith

-- Between the provider's answer and the write-back.
record IsSettled (r : SessionOutcome) (go : Bool) : Type 0 where
  sound : IsSound r
  go_confirmed : go ≡ true → r.provider_confirmed ≡ true

settle-IsSettled :
    (r : SessionOutcome) (reply : Reply TerminationResult)
    → IsFresh r
    → r.disposition ≡ Disposition.orphaned
    → IsSettled (settle r reply).0 (settle r reply).1
unfolding settle
settle-IsSettled r (Reply.ok t) f o = ground arith
settle-IsSettled r (Reply.err e) f o = ground arith

-- The provider's answer says that the session has ended: its state is a terminal one, or it is gone.
abbrev pub Confirms : Reply TerminationResult → Type 0
Confirms (Reply.ok t) =
    (t.status ≡ SessionStatus.error)
    ⊎ (t.status ≡ SessionStatus.timed_out)
    ⊎ (t.status ≡ SessionStatus.completed)
Confirms (Reply.err e) = e.status_code ≡ some 404

settle-Confirms :
    (r : SessionOutcome) (reply : Reply TerminationResult)
    → r.provider_confirmed ≡ false
    → (settle r reply).0.provider_confirmed ≡ true
    → Confirms reply
unfolding settle
settle-Confirms r (Reply.ok t) f h = ground (arith, f, h)
settle-Confirms r (Reply.err e) f h = ground (arith, f, h)

settle-session :
    (r : SessionOutcome) (reply : Reply TerminationResult)
    → (settle r reply).0.provider_session_id ≡ r.provider_session_id
unfolding settle
settle-session r (Reply.ok t) = ground arith
settle-session r (Reply.err e) = ground arith

classified-IsFresh :
    (p : ReconciliationPolicy) (local : Dict Text LocalBrowserSession) (now : ℕ)
    (ss : List SessionRecord)
    → All IsFresh (map (λ s. classify p s local now) ss)
classified-IsFresh p local now [] = tt
classified-IsFresh p local now (s ∷ ss) =
    (classify-IsFresh p s local now, classified-IsFresh p local now ss)

marked-IsSound : (r : SessionOutcome) → IsFresh r → IsSound (mark_dry_run r)
marked-IsSound r f = ground arith

marked_unconfirmed :
    (r : SessionOutcome)
    → r.provider_confirmed ≡ false
    → (mark_dry_run r).provider_confirmed ≡ false
marked_unconfirmed r f = ground (arith, f)

-- A sound record of which the confirmation is an answer of the provider to the termination of the
-- record's own session.
pub record IsBacked (b : Backend) (r : SessionOutcome) : Type 0 where
  pub sound : IsSound r
  pub answered :
      r.provider_confirmed ≡ true → (w : b.World) × Confirms (b.terminate r.provider_session_id w).0

-- A report, where the pass did not raise, holds such records only.
abbrev pub AllBacked : Backend → Option (List SessionOutcome) → Type 0
AllBacked b none = Unit
AllBacked b (some rs) = All (IsBacked b) rs

abbrev pub IsBackedReport : Backend → Option ReconciliationReport → Type 0
IsBackedReport b none = Unit
IsBackedReport b (some report) = All (IsBacked b) report.sessions

module _ (b : Backend) where
  open b use {World}

  write_back-IsSound :
      (r : SessionOutcome) (go : Bool) (w : World)
      → IsSettled r go
      → IsSound (write_back b (r, go) w).0
  unfolding write_back
  write_back-IsSound r go w s = ground arith

  terminate-IsSound :
      (r : SessionOutcome) (w : World)
      → IsFresh r
      → r.disposition ≡ Disposition.orphaned
      → IsSound (terminate_session b r w).0
  unfolding terminate_session
  terminate-IsSound r w f o =
      let (reply, w') = b.terminate r.provider_session_id w in
      write_back-IsSound (settle r reply).0 (settle r reply).1 w' (settle-IsSettled r reply f o)

  unconfirmed-IsBacked :
      (r : SessionOutcome) → IsSound r → r.provider_confirmed ≡ false → IsBacked b r
  unconfirmed-IsBacked r s f = record { sound = s; answered = λ h. absurd cc }

  write_back_kept :
      (r : SessionOutcome) (go : Bool) (w : World)
      → ((write_back b (r, go) w).0.provider_confirmed ≡ r.provider_confirmed)
        × ((write_back b (r, go) w).0.provider_session_id ≡ r.provider_session_id)
  unfolding write_back
  write_back_kept r go w = ground arith

  terminate-IsBacked :
      (r : SessionOutcome) (w : World)
      → IsFresh r
      → r.disposition ≡ Disposition.orphaned
      → IsBacked b (terminate_session b r w).0
  unfolding terminate_session
  terminate-IsBacked r w f o =
      let (reply, w') = b.terminate r.provider_session_id w in
      let x = settle r reply in
      let z = write_back_kept x.0 x.1 w' in
      record {
        sound = terminate-IsSound r w f o;
        answered = λ h. (
          w,
          rw (z.1, settle-session r reply) (settle-Confirms r reply f.unconfirmed (sym z.0 ∙ h)),
        );
      }

  All-fresh-IsBacked : (rs : List SessionOutcome) → All IsFresh rs → All (IsBacked b) rs
  All-fresh-IsBacked [] f = tt
  All-fresh-IsBacked (r ∷ rs) f =
      (unconfirmed-IsBacked r (IsFresh-IsSound r f.0) f.0.unconfirmed, All-fresh-IsBacked rs f.1)

  dry_run-IsBacked :
      (rs : List SessionOutcome) → All IsFresh rs → All (IsBacked b) (map mark_dry_run rs)
  dry_run-IsBacked [] f = tt
  dry_run-IsBacked (r ∷ rs) f = (
    unconfirmed-IsBacked (mark_dry_run r) (marked-IsSound r f.0)
        (marked_unconfirmed r f.0.unconfirmed),
    dry_run-IsBacked rs f.1,
  )

  spend-IsBacked :
      (r : SessionOutcome) (budget : ℕ) (w : World)
      → IsFresh r
      → r.disposition ≡ Disposition.orphaned
      → IsBacked b (spend b r budget w).0
  unfolding spend
  spend-IsBacked r zero w f o =
      unconfirmed-IsBacked (record r { outcome = Outcome.deferred_termination_limit })
        (ground (arith, f, o)) f.unconfirmed
  spend-IsBacked r (suc budget) w f o = terminate-IsBacked r w f o

  module _ (p : ReconciliationPolicy) (by_id : Dict Text SessionRecord)
      (local : Dict Text LocalBrowserSession) (now : ℕ) where
    release_one-IsBacked :
        (r : SessionOutcome) (budget : ℕ) (w : World)
        → IsFresh r
        → r.disposition ≡ Disposition.orphaned
        → IsBacked b (release_one b p by_id local now r budget w).0
    unfolding release_one
    release_one-IsBacked r budget w f o = elim (Option-cases (lookup r.provider_session_id by_id)) [
      | inl gone ↦ rw (release_one, gone) (spend-IsBacked r budget w f o)
      | inr (source, found) ↦
          let recheck = classify p source local now in
          elim (Bool-cases (recheck.disposition == Disposition.orphaned)) [
            | inl still ↦ rw (release_one, found, still) (spend-IsBacked r budget w f o)
            | inr not_now ↦
                rw (release_one, found, not_now)
                  (unconfirmed-IsBacked (reclaim r recheck.local_status) (ground (arith, f))
                    f.unconfirmed)
          ]
    ]

    release_all-IsBacked :
        (rs : List SessionOutcome) (budget : ℕ) (w : World)
        → All IsFresh rs
        → All (IsBacked b) (release_all b p by_id local now rs budget w).0
    unfolding release_all
    release_all-IsBacked [] budget w f = tt
    release_all-IsBacked (r ∷ rs) budget w f = elim (Bool-cases (is_orphan r)) [
      | inl o ↦
          rw o (release_one-IsBacked r budget w f.0 (ground arith), release_all-IsBacked rs _ _ f.1)
      | inr n ↦ rw n (
        unconfirmed-IsBacked r (IsFresh-IsSound r f.0) f.0.unconfirmed,
        release_all-IsBacked rs budget w f.1,
      )
    ]

  release_confirmed-IsBacked :
      (p : ReconciliationPolicy) (sessions : List SessionRecord) (rs : List SessionOutcome)
      (local : Option (Dict Text LocalBrowserSession)) (w : World)
      → All IsFresh rs
      → AllBacked b (release_confirmed b p sessions rs local w).0
  unfolding release_confirmed
  release_confirmed-IsBacked p sessions rs none w f = tt
  release_confirmed-IsBacked p sessions rs (some local) w f =
      release_all-IsBacked p (index_sessions sessions []) local (b.clock w).0 rs p.max_terminations
        (b.clock w).1 f

  release-IsBacked :
      (p : ReconciliationPolicy) (sessions : List SessionRecord) (rs : List SessionOutcome)
      (w : World)
      → All IsFresh rs
      → AllBacked b (release b p sessions rs w).0
  unfolding release
  release-IsBacked p sessions rs w f = elim (Bool-cases (any is_orphan rs)) [
    | inl found ↦
        rw found (release_confirmed-IsBacked p sessions rs (b.snapshot w).0 (b.snapshot w).1 f)
    | inr quiet ↦ rw quiet (All-fresh-IsBacked rs f)
  ]

  finish-IsBacked :
      (p : ReconciliationPolicy) (started rows : ℕ) (rs : Option (List SessionOutcome)) (w : World)
      → AllBacked b rs
      → IsBackedReport b (finish b p started rows rs w).0
  unfolding finish
  finish-IsBacked p started rows none w h = tt
  finish-IsBacked p started rows (some rs) w h = h

  judge-IsBacked :
      (execute : Bool) (p : ReconciliationPolicy) (started : ℕ) (ss : List SessionRecord)
      (local : Dict Text LocalBrowserSession) (w : World)
      → IsBackedReport b (judge_and_release b execute p started ss local w).0
  unfolding judge_and_release
  judge-IsBacked true p started ss local w =
      let now = (b.clock w).0 in
      let rs = map (λ s. classify p s local now) ss in
      finish-IsBacked p started (length local) (release b p ss rs (b.clock w).1).0
        (release b p ss rs (b.clock w).1).1
        (release-IsBacked p ss rs (b.clock w).1 (classified-IsFresh p local now ss))
  judge-IsBacked false p started ss local w =
      dry_run-IsBacked (map (λ s. classify p s local (b.clock w).0) ss)
        (classified-IsFresh p local (b.clock w).0 ss)

  after_snapshot-IsBacked :
      (execute : Bool) (p : ReconciliationPolicy) (started : ℕ) (ss : List SessionRecord)
      (local : Option (Dict Text LocalBrowserSession)) (w : World)
      → IsBackedReport b (after_snapshot b execute p started ss local w).0
  unfolding after_snapshot
  after_snapshot-IsBacked execute p started ss none w = tt
  after_snapshot-IsBacked execute p started ss (some local) w =
      judge-IsBacked execute p started ss local w

  after_listing-IsBacked :
      (execute : Bool) (p : ReconciliationPolicy) (started : ℕ)
      (listed : Reply (List SessionRecord)) (w : World)
      → IsBackedReport b (after_listing b execute p started listed w).0
  unfolding after_listing
  after_listing-IsBacked execute p started (Reply.err e) w = tt
  after_listing-IsBacked execute p started (Reply.ok ss) w =
      after_snapshot-IsBacked execute p started ss (b.snapshot w).0 (b.snapshot w).1

  -- In the report of a pass, dry or not, every record of which the outcome is a termination was
  -- confirmed and no other record was; a confirmed record is of a session for which the provider
  -- answered a termination with a terminal state or as gone; a record with an outcome was judged
  -- orphaned; and a record written back to the operational store was confirmed.
  pub reconcile-IsSound :
      (execute : Bool) (p : ReconciliationPolicy) (w : World)
      → IsBackedReport b (reconcile b execute p w).0
  unfolding reconcile
  reconcile-IsSound execute p w =
      let (listed, w') = list_live b p (b.clock w).1 in
      after_listing-IsBacked execute p (b.clock w).0 listed w'
