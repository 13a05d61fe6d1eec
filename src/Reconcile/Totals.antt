-- ===== src/Reconcile/Totals.antt =====
-- The totals of a report add up (backend/app/services/browser_reconciliation.py).
use web_accessible.Prelude.{nat_eq, text_eq, ◌+◌, ◌≤◌, ◌≡◌, refl, List, [], ◌∷◌, arith, All}
use web_accessible.Reconcile.Types.{SessionOutcome}
use web_accessible.Reconcile.Report.{counts}
use web_accessible.Reconcile.Soundness.{IsSound}

totals_step :
    (r : SessionOutcome) (rs : List SessionOutcome)
    → IsSound r
    → (counts rs).terminated + (counts rs).failed + (counts rs).deferred ≤ (counts rs).orphaned
    → (counts (r ∷ rs)).terminated + (counts (r ∷ rs)).failed + (counts (r ∷ rs)).deferred
      ≤ (counts (r ∷ rs)).orphaned
unfolding counts
totals_step r rs s h = ground arith

-- Every inspected session is counted as active, orphaned or skipped, once.
dispositions_partition :
    (rs : List SessionOutcome)
    → (counts rs).inspected ≡ (counts rs).active + (counts rs).orphaned + (counts rs).skipped
unfolding counts
dispositions_partition [] = refl
dispositions_partition (r ∷ rs) = ground (arith, dispositions_partition rs)

terminated_split :
    (rs : List SessionOutcome) → (counts rs).already_terminal ≤ (counts rs).terminated
unfolding counts
terminated_split [] = omega arith
terminated_split (r ∷ rs) = ground (arith, terminated_split rs)

outcomes_within :
    (rs : List SessionOutcome)
    → All IsSound rs
    → (counts rs).terminated + (counts rs).failed + (counts rs).deferred ≤ (counts rs).orphaned
unfolding counts
outcomes_within [] h = omega arith
outcomes_within (r ∷ rs) h = totals_step r rs h.0 (outcomes_within rs h.1)

-- Over sound records the inspected sessions are the active, the orphaned and the skipped ones; the
-- terminated, failed and deferred ones are among the orphaned; and those that were terminal already
-- are among the terminated.
pub counts_consistent :
    (rs : List SessionOutcome)
    → All IsSound rs
    → ((counts rs).inspected ≡ (counts rs).active + (counts rs).orphaned + (counts rs).skipped)
      × ((counts rs).terminated + (counts rs).failed + (counts rs).deferred ≤ (counts rs).orphaned)
      × ((counts rs).already_terminal ≤ (counts rs).terminated)
counts_consistent rs h = (dispositions_partition rs, outcomes_within rs h, terminated_split rs)
