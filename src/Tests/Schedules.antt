-- ===== src/Tests/Schedules.antt =====
-- Schedules of passes over a provider with one running session
-- (backend/app/workers/browser_reconciliation_worker.py).
use web_accessible.Prelude.{
  nat_eq, text_eq, text_beq, strip, lookup, put, set_default, ℕ, ◌+◌, ◌*◌, ◌≤◌, ◌≡◌, refl, ◌≢◌,
  true, false, none, some, arith,
}
use web_accessible.Uuid.{canonical_uuid}
use web_accessible.Reconcile.Classify.{owner_session_id, agent_surface_used, classify}
use web_accessible.Reconcile.Release.{
  reconcile, list_live, list_pending, after_listing, after_snapshot, judge_and_release, release,
  release_confirmed, release_all, release_one, spend, terminate_session, finish,
}
use web_accessible.Reconcile.Worker.{WorkerSchedule, Runtime, Ending, run_once, run}
use web_accessible.Reconcile.Worker.Bounded.{IsClock, run_ends}
use web_accessible.Reconcile.Worker.Calls.{IsQuiet, run_calls_bounded}
use web_accessible.Tests.Releases.{one_session, strict, counts_calls}

abbrev three_times : WorkerSchedule
three_times = record {
  interval = 300;
  max_cycles = some 3;
  max_runtime = none;
  max_consecutive_failures = 3;
}

abbrev one_hour : WorkerSchedule
one_hour = record three_times { max_cycles = none; max_runtime = some 3600 }

-- The world's number is the time.
abbrev ticking : Runtime one_session
ticking = record {
  clear_stop = λ w. w;
  is_stopped = λ w. false;
  time = λ w. (w, w);
  wait = λ n w. (true, w + n);
  emit = λ r w. (some tt, w);
}

pass_ticks : (w : ℕ) → (run_once one_session ticking true strict w).1 ≡ w + 1
unfolding run_once reconcile list_live list_pending after_listing after_snapshot judge_and_release
    release release_confirmed release_all release_one spend terminate_session classify finish
    owner_session_id agent_surface_used canonical_uuid lookup text_beq strip put set_default
pass_ticks w = refl

ticking-IsClock : IsClock one_session ticking true strict (λ (w : ℕ). w)
ticking-IsClock = record {
  reads = λ w. (refl, omega arith);
  passes = λ w. omega (arith, pass_ticks w);
  waits = λ n w h. omega arith;
}

run_ends_example : (run one_session ticking one_hour true strict 14 0).0 ≢ Ending.out_of_fuel
run_ends_example =
    run_ends one_session ticking one_hour true strict (λ (w : ℕ). w) ticking-IsClock 14 0 refl
      (omega arith)

-- The world's number is the count of terminate calls.
abbrev standing : Runtime one_session
standing = record ticking { wait = λ n w. (true, w) }

standing-IsQuiet : IsQuiet one_session standing (λ (w : ℕ). w)
standing-IsQuiet = record {
  clear_quiet = λ w. refl;
  time_quiet = λ w. refl;
  wait_quiet = λ n w. refl;
  emit_quiet = λ r w. refl;
}

run_calls_bounded_example : (run one_session standing three_times true strict 9 0).1 ≤ 0 + 3 * 1
run_calls_bounded_example =
    run_calls_bounded one_session standing three_times true strict (λ (w : ℕ). w) counts_calls
      standing-IsQuiet 2 9 0 refl
