-- ===== src/Reconcile/Worker/Calls.antt =====
-- What the loop of passes asks of the provider (backend/app/workers/browser_reconciliation_worker.py).
use web_accessible.Prelude.{
  ◌-◌, nat_eq, text_eq, ℕ, zero, suc, ◌+◌, ◌*◌, ◌≤◌, ◌≡◌, refl, ◌∙◌, inl, inr, Bool, true, false,
  Option, none, some, arith, leb, if◌then◌else◌, Bool-cases,
}
use web_accessible.Reconcile.Types.{ReconciliationPolicy}
use web_accessible.Reconcile.Report.{ReconciliationReport}
use web_accessible.Reconcile.Release.{Backend, reconcile}
use web_accessible.Reconcile.Budget.{IsCounter, allowance, terminate_calls_bounded}
use web_accessible.Reconcile.Worker.{
  await_next, WorkerSchedule, Runtime, Cycle, Ending, Next, Progress, run_once, conclude,
  wait_for_next_cycle, next_progress, turn, cycles, start_clock, no_progress, run, waited, passed,
  pass_ended, emitted, keep_going,
}
use web_accessible.Reconcile.Worker.Bounded.{turn_branch}

-- The runtime makes no call of the terminate verb.
pub record IsQuiet (b : Backend) (t : Runtime b) (calls : b.World → ℕ) : Type 0 where
  pub clear_quiet : (w : b.World) → calls (t.clear_stop w) ≡ calls w
  pub time_quiet : (w : b.World) → calls (t.time w).1 ≡ calls w
  pub wait_quiet : (n : ℕ) (w : b.World) → calls (t.wait n w).1 ≡ calls w
  pub emit_quiet : (r : ReconciliationReport) (w : b.World) → calls (t.emit r w).1 ≡ calls w

module _ (b : Backend) (t : Runtime b) (s : WorkerSchedule) (execute : Bool)
    (p : ReconciliationPolicy) (calls : b.World → ℕ) (counter : IsCounter b calls)
    (quiet : IsQuiet b t calls) where
  open b use {World}

  emitted_calls :
      (r : ReconciliationReport) (x : Option (Unit {0}) × World)
      → calls (emitted b t r x).1 ≡ calls x.1
  emitted_calls r (none, w) = refl
  emitted_calls r (some u, w) = refl

  pass_calls : (x : Option ReconciliationReport × World) → calls (pass_ended b t x).1 ≡ calls x.1
  pass_calls (none, w) = refl
  pass_calls (some r, w) = emitted_calls r (t.emit r w) ∙ quiet.emit_quiet r w

  if_calls :
      {A : Type 0} (x : Bool) (y z : A × World) (w : World)
      → calls y.1 ≡ calls w
      → calls z.1 ≡ calls w
      → calls (if x then y else z).1 ≡ calls w
  if_calls true y z w f g = f
  if_calls false y z w f g = g

  await_calls : (d : ℕ) (r : ℕ × World) → calls (await_next b t s d r).1 ≡ calls r.1
  await_calls d (now, w) =
      let late = if leb (d - now) s.interval then (false, w) else t.wait s.interval w in
      if_calls {A = Bool} (leb d now) (false, w) late w refl
        (if_calls {A = Bool} (leb (d - now) s.interval) (false, w) (t.wait s.interval w) w refl
          (quiet.wait_quiet s.interval w))

  wait_calls : (dl : Option ℕ) (w : World) → calls (wait_for_next_cycle b t s dl w).1 ≡ calls w
  unfolding wait_for_next_cycle
  wait_calls none w = quiet.wait_quiet s.interval w
  wait_calls (some d) w = await_calls d (t.time w) ∙ quiet.time_quiet w

  waited_calls : (g : Progress) (x : Bool × World) → calls (waited b t g x).1 ≡ calls x.1
  waited_calls g (true, w) = refl
  waited_calls g (false, w) = refl

  conclude_calls :
      (dl : Option ℕ) (g : Progress) (w : World) → calls (conclude b t s dl g w).1 ≡ calls w
  unfolding conclude
  conclude_calls dl g w =
      if_calls {A = Next} _ (Next.stops (Ending.returned g.reports), w)
        (waited b t g (wait_for_next_cycle b t s dl w)) w refl
        (waited_calls g (wait_for_next_cycle b t s dl w) ∙ wait_calls dl w)

  passed_calls :
      (dl : Option ℕ) (g : Progress) (x : Cycle × World) → calls (passed b t s dl g x).1 ≡ calls x.1
  passed_calls dl g (Cycle.reported r, w) = conclude_calls dl (next_progress g (some r)) w
  passed_calls dl g (Cycle.failed, w) = conclude_calls dl (next_progress g none) w
  passed_calls dl g (Cycle.broken, w) = refl

  turn_calls :
      (dl : Option ℕ) (g : Progress) (w : World)
      → calls (turn b t s execute p dl g w).1 ≤ calls w + allowance execute p
  unfolding turn run_once
  turn_calls dl g w = elim (Bool-cases (t.is_stopped w)) [
    | inl h ↦ rw h (omega arith)
    | inr h ↦ rw h (
        omega (
          arith,
          passed_calls dl g (run_once b t execute p w),
          pass_calls (reconcile b execute p w),
          terminate_calls_bounded b calls counter execute p w,
        ))
  ]

  keep_going_calls :
      (again : Progress → World → Ending × World) (x : Next × World) (n k : ℕ)
      → calls x.1 ≤ n
      → ((h : Progress) → x.0 ≡ Next.goes h → calls (again h x.1).1 ≤ calls x.1 + k)
      → calls (keep_going b t s again x).1 ≤ n + k
  keep_going_calls again (Next.stops e, w) n k f g = omega (arith, f)
  keep_going_calls again (Next.goes h, w) n k f g = omega (arith, f, g h refl)

  -- The turns that are left, and the calls of each.
  cycles_calls :
      (m left fuel : ℕ) (dl : Option ℕ) (g : Progress) (w : World)
      → s.max_cycles ≡ some m
      → m ≡ g.cycle + suc left
      → calls (cycles b t s execute p fuel dl g w).1 ≤ calls w + suc left * allowance execute p
  unfolding cycles turn
  cycles_calls m left zero dl g w lim e = omega arith
  cycles_calls m zero (suc fuel) dl g w lim e =
      let r = turn b t s execute p dl g w in
      omega (
        arith,
        keep_going_calls (λ h v. cycles b t s execute p fuel dl h v) r
            (calls w + allowance execute p) 0 (turn_calls dl g w)
            λ h e'.
              let z = turn_branch b t s (t.is_stopped w) dl g h w (run_once b t execute p w) e' in
              let below : leb m (g.cycle + 1) ≡ false = rw lim at z.1 in
              absurd (ground (arith, below, e)),
      )
  cycles_calls m (suc left) (suc fuel) dl g w lim e =
      let r = turn b t s execute p dl g w in
      let rest = suc left * allowance execute p in
      omega (
        arith,
        keep_going_calls (λ h v. cycles b t s execute p fuel dl h v) r
            (calls w + allowance execute p) rest (turn_calls dl g w)
            λ h e'.
              let z = turn_branch b t s (t.is_stopped w) dl g h w (run_once b t execute p w) e' in
              cycles_calls m left fuel dl h r.1 lim (omega (arith, z.0, e)),
      )

  start_calls : (r : Option ℕ) (w : World) → calls (start_clock b t r w).1 ≡ calls w
  start_calls none w = refl
  start_calls (some r) w = quiet.time_quiet w

  -- A schedule with a limit of cycles, which is at least 1, calls the provider's terminate verb at
  -- most as often as that many passes may, and never in a dry run, however long the loop goes on.
  pub run_calls_bounded :
      (m fuel : ℕ) (w : World)
      → s.max_cycles ≡ some (suc m)
      → calls (run b t s execute p fuel w).1 ≤ calls w + suc m * allowance execute p
  unfolding run
  run_calls_bounded m fuel w lim =
      let r = start_clock b t s.max_runtime (t.clear_stop w) in
      omega (
        arith,
        cycles_calls (suc m) m fuel r.0 no_progress r.1 lim (omega arith),
        start_calls s.max_runtime (t.clear_stop w),
        quiet.clear_quiet w,
      )
