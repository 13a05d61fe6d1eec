-- ===== src/Reconcile/Worker/Bounded.antt =====
-- The loop of passes ends, and what it asks of the provider meanwhile
-- (backend/app/workers/browser_reconciliation_worker.py).
use web_accessible.Prelude.{
  inl, inr, Option-cases, ◌/◌, zero, suc, leb, suc, ◌*◌, ◌≢◌, nat_eq, text_eq, ℕ, ◌+◌, ◌≤◌, ◌<◌,
  ◌≡◌, refl, ap, Bool, true, false, ◌||◌, Option, none, some, arith, if◌then◌else◌,
}
use native.Mathlib.Nat.{div-lt_iff_lt-mul}
use web_accessible.Reconcile.Types.{ReconciliationPolicy}
use web_accessible.Reconcile.Release.{Backend}
use web_accessible.Reconcile.Worker.{
  start_clock, run, no_progress, is_valid_schedule, keep_going, turn, cycles, WorkerSchedule,
  Runtime, Cycle, Ending, Next, Progress, run_once, conclude, wait_for_next_cycle, next_progress,
  is_reached, waited, passed, await_next,
}

-- The clock never goes back, and a wait that runs out takes its time.
pub record IsClock (b : Backend) (t : Runtime b) (execute : Bool) (p : ReconciliationPolicy)
    (reading : b.World → ℕ) : Type 0 where
  pub reads : (w : b.World) → ((t.time w).0 ≡ reading w) × (reading w ≤ reading (t.time w).1)
  pub passes : (w : b.World) → reading w ≤ reading (run_once b t execute p w).1
  pub waits : (n : ℕ) (w : b.World) → (t.wait n w).0 ≡ true → reading w + n ≤ reading (t.wait n w).1

abbrev bound_of : ℕ → Option ℕ → Option ℕ → ℕ
bound_of interval (some m) r = m
bound_of interval none (some r) = r / interval + 2
bound_of interval none none = 0

-- The turns that a schedule admits.
abbrev pub turns_bound : WorkerSchedule → ℕ
turns_bound s = bound_of s.interval s.max_cycles s.max_runtime

module _ (b : Backend) (t : Runtime b) (s : WorkerSchedule) where
  open b use {World}

  waited-goes :
      (g h : Progress) (r : Bool × World)
      → (waited b t g r).0 ≡ Next.goes h
      → (h ≡ g) × (r.0 ≡ true) × ((waited b t g r).1 ≡ r.1)
  waited-goes g h (true, w) e = (cc, refl, refl)
  waited-goes g h (false, w) e = absurd cc

  conclude_branch :
      (x y : Bool) (g h : Progress) (w : World) (r : Bool × World)
      → (if x || y then (Next.stops (Ending.returned g.reports), w) else waited b t g r).0
        ≡ Next.goes h
      → (h ≡ g)
        × (y ≡ false)
        × (r.0 ≡ true)
        × ((if x || y then (Next.stops (Ending.returned g.reports), w) else waited b t g r).1 ≡ r.1)
  conclude_branch true y g h w r e = absurd cc
  conclude_branch false true g h w r e = absurd cc
  conclude_branch false false g h w r e = let z = waited-goes g h r e in (z.0, refl, z.1, z.2)

  -- A turn is followed by another only after a wait that ran out, and below the limit of cycles.
  conclude-goes :
      (dl : Option ℕ) (g h : Progress) (w : World)
      → (conclude b t s dl g w).0 ≡ Next.goes h
      → (h ≡ g)
        × (is_reached g.cycle s.max_cycles ≡ false)
        × ((wait_for_next_cycle b t s dl w).0 ≡ true)
        × ((conclude b t s dl g w).1 ≡ (wait_for_next_cycle b t s dl w).1)
  unfolding conclude
  conclude-goes dl g h w e = conclude_branch _ _ g h w (wait_for_next_cycle b t s dl w) e

  passed-goes :
      (dl : Option ℕ) (g h : Progress) (r : Cycle × World)
      → (passed b t s dl g r).0 ≡ Next.goes h
      → (h.cycle ≡ g.cycle + 1)
        × (is_reached (g.cycle + 1) s.max_cycles ≡ false)
        × ((wait_for_next_cycle b t s dl r.1).0 ≡ true)
        × ((passed b t s dl g r).1 ≡ (wait_for_next_cycle b t s dl r.1).1)
  passed-goes dl g h (Cycle.reported report, w) e =
      let z = conclude-goes dl (next_progress g (some report)) h w e in
      (ap (λ x. x.cycle) z.0, z.1, z.2, z.3)
  passed-goes dl g h (Cycle.failed, w) e =
      let z = conclude-goes dl (next_progress g none) h w e in
      (ap (λ x. x.cycle) z.0, z.1, z.2, z.3)
  passed-goes dl g h (Cycle.broken, w) e = absurd cc

  await_branch :
      (x y : Bool) (w : World) (r : Bool × World)
      → (if x then (false, w) else (if y then (false, w) else r)).0 ≡ true
      → (x ≡ false)
        × (y ≡ false)
        × (r.0 ≡ true)
        × ((if x then (false, w) else (if y then (false, w) else r)).1 ≡ r.1)
  await_branch true y w r e = absurd cc
  await_branch false true w r e = absurd cc
  await_branch false false w r e = (refl, refl, e, refl)

  -- Under a deadline the loop goes on only after the whole interval, and before the deadline.
  await_next-goes :
      (dl : ℕ) (r : ℕ × World)
      → (await_next b t s dl r).0 ≡ true
      → (r.0 + s.interval < dl)
        × ((t.wait s.interval r.1).0 ≡ true)
        × ((await_next b t s dl r).1 ≡ (t.wait s.interval r.1).1)
  await_next-goes dl (now, w) e =
      let z = await_branch _ _ w (t.wait s.interval w) e in (ground (arith, z.0, z.1), z.2, z.3)

  pub turn_branch :
      (x : Bool) (dl : Option ℕ) (g h : Progress) (w : World) (r : Cycle × World)
      → (if x then (Next.stops (Ending.returned g.reports), w) else passed b t s dl g r).0
        ≡ Next.goes h
      → (h.cycle ≡ g.cycle + 1)
        × (is_reached (g.cycle + 1) s.max_cycles ≡ false)
        × ((wait_for_next_cycle b t s dl r.1).0 ≡ true)
        × ((if x then (Next.stops (Ending.returned g.reports), w) else passed b t s dl g r).1
            ≡ (wait_for_next_cycle b t s dl r.1).1)
  turn_branch true dl g h w r e = absurd cc
  turn_branch false dl g h w r e = passed-goes dl g h r e

  -- No turn ends for want of fuel.
  abbrev IsFuelled : Next × World → Type 0
  IsFuelled r = r.0 ≢ Next.stops Ending.out_of_fuel

  waited-IsFuelled : (g : Progress) (r : Bool × World) → IsFuelled (waited b t g r)
  waited-IsFuelled g (true, w) e = cc
  waited-IsFuelled g (false, w) e = cc

  branch-IsFuelled :
      (x : Bool) (g : Progress) (w : World) (r : Next × World)
      → IsFuelled r
      → IsFuelled (if x then (Next.stops (Ending.returned g.reports), w) else r)
  branch-IsFuelled true g w r h e = cc
  branch-IsFuelled false g w r h e = h e

  passed-IsFuelled :
      (dl : Option ℕ) (g : Progress) (r : Cycle × World) → IsFuelled (passed b t s dl g r)
  unfolding conclude
  passed-IsFuelled dl g (Cycle.reported report, w) =
      branch-IsFuelled _ (next_progress g (some report)) w _
        (waited-IsFuelled (next_progress g (some report)) (wait_for_next_cycle b t s dl w))
  passed-IsFuelled dl g (Cycle.failed, w) =
      branch-IsFuelled _ (next_progress g none) w _
        (waited-IsFuelled (next_progress g none) (wait_for_next_cycle b t s dl w))
  passed-IsFuelled dl g (Cycle.broken, w) = λ e. cc

  keep_going-ends :
      (again : Progress → World → Ending × World) (r : Next × World)
      → IsFuelled r
      → ((h : Progress) → r.0 ≡ Next.goes h → (again h r.1).0 ≢ Ending.out_of_fuel)
      → (keep_going b t s again r).0 ≢ Ending.out_of_fuel
  keep_going-ends again (Next.stops e, w) f k h = f (ap Next.stops h)
  keep_going-ends again (Next.goes g, w) f k h = k g refl h

module _ (b : Backend) (t : Runtime b) (s : WorkerSchedule) (execute : Bool)
    (p : ReconciliationPolicy) where
  open b use {World}

  turn-IsFuelled :
      (dl : Option ℕ) (g : Progress) (w : World) → IsFuelled b t s (turn b t s execute p dl g w)
  unfolding turn
  turn-IsFuelled dl g w =
      branch-IsFuelled b t s _ g w _ (passed-IsFuelled b t s dl g (run_once b t execute p w))

  -- Enough turns for the cycles that are left.
  cycles_end_limit :
      (m fuel : ℕ) (dl : Option ℕ) (g : Progress) (w : World)
      → s.max_cycles ≡ some m
      → g.cycle < m
      → m ≤ g.cycle + fuel
      → (cycles b t s execute p fuel dl g w).0 ≢ Ending.out_of_fuel
  unfolding cycles turn
  cycles_end_limit m zero dl g w lim lt le = absurd (omega (arith, lt, le))
  cycles_end_limit m (suc fuel) dl g w lim lt le =
      keep_going-ends b t s _ (turn b t s execute p dl g w) (turn-IsFuelled dl g w) λ h e.
        let z = turn_branch b t s (t.is_stopped w) dl g h w (run_once b t execute p w) e in
        let below : leb m (g.cycle + 1) ≡ false = rw lim at z.1 in
        cycles_end_limit m fuel dl h _ lim (ground (arith, z.0, below)) (omega (arith, z.0, le))

module _ (b : Backend) (t : Runtime b) (s : WorkerSchedule) (execute : Bool)
    (p : ReconciliationPolicy) (reading : b.World → ℕ) (clock : IsClock b t execute p reading) where
  open b use {World}

  -- A turn that goes on took the interval, and leaves the deadline ahead.
  turn_takes_interval :
      (d : ℕ) (g h : Progress) (w : World)
      → (turn b t s execute p (some d) g w).0 ≡ Next.goes h
      → (reading w + s.interval < d)
        × (reading w + s.interval ≤ reading (turn b t s execute p (some d) g w).1)
  unfolding turn wait_for_next_cycle
  turn_takes_interval d g h w e =
      let z = turn_branch b t s (t.is_stopped w) (some d) g h w (run_once b t execute p w) e in
      let v = (run_once b t execute p w).1 in
      let a = await_next-goes b t s d (t.time v) z.2 in
      let on = clock.waits s.interval (t.time v).1 a.1 in
      let now = clock.reads v in
      let before = clock.passes w in
      (omega (arith, a.0, now.0, before), rw (z.3, a.2) (omega (arith, on, now.1, before)))

  cycles_end_deadline :
      (d fuel : ℕ) (g : Progress) (w : World)
      → d ≤ reading w + fuel * s.interval
      → (cycles b t s execute p (suc fuel) (some d) g w).0 ≢ Ending.out_of_fuel
  unfolding cycles
  cycles_end_deadline d zero g w le =
      keep_going-ends b t s _ (turn b t s execute p (some d) g w)
        (turn-IsFuelled b t s execute p (some d) g w)
        λ h e. absurd (omega (arith, turn_takes_interval d g h w e, le))
  cycles_end_deadline d (suc fuel) g w le =
      keep_going-ends b t s _ (turn b t s execute p (some d) g w)
        (turn-IsFuelled b t s execute p (some d) g w)
        λ h e.
          cycles_end_deadline d fuel h (turn b t s execute p (some d) g w).1
            (omega (arith, turn_takes_interval d g h w e, le))

  limit_end :
      (m fuel : ℕ) (r : Option ℕ × World)
      → s.max_cycles ≡ some m
      → is_valid_schedule s ≡ true
      → turns_bound s ≤ fuel
      → (cycles b t s execute p fuel r.0 no_progress r.1).0 ≢ Ending.out_of_fuel
  limit_end m fuel r lim valid enough =
      let positive : 0 < m = ground (arith, rw lim at valid) in
      cycles_end_limit b t s execute p m fuel r.0 no_progress r.1 lim positive
        (omega (arith, rw lim at enough))

  -- The turns of a deadline cover its interval.
  covers : (r i fuel : ℕ) → 0 < i → r / i + 2 ≤ suc fuel → r ≤ fuel * i
  covers r i fuel h e =
      omega (arith, (div-lt_iff_lt-mul {k = i} {x = r} {y = fuel} h).0 (omega (arith, e)))

  timed_end :
      (r fuel : ℕ) (now : ℕ × World)
      → s.max_cycles ≡ none
      → s.max_runtime ≡ some r
      → is_valid_schedule s ≡ true
      → turns_bound s ≤ fuel
      → now.0 ≤ reading now.1
      → (cycles b t s execute p fuel (some (now.0 + r)) no_progress now.1).0 ≢ Ending.out_of_fuel
  timed_end r zero now lim run valid enough le = absurd (omega (arith, rw (lim, run) at enough))
  timed_end r (suc fuel) now lim run valid enough le =
      let positive : 0 < s.interval = ground (arith, rw (lim, run) at valid) in
      cycles_end_deadline (now.0 + r) fuel no_progress now.1
        (omega (arith, le, covers r s.interval fuel positive (rw (lim, run) at enough)))

  -- A valid schedule ends: the loop never runs out of fuel where it is given as many turns as the
  -- limit of cycles, or else two more than the intervals that fit into the limit of time, provided
  -- that the clock does not go back and that a wait that runs out takes its time.
  pub run_ends :
      (fuel : ℕ) (w : World)
      → is_valid_schedule s ≡ true
      → turns_bound s ≤ fuel
      → (run b t s execute p fuel w).0 ≢ Ending.out_of_fuel
  unfolding run
  run_ends fuel w valid enough = elim (Option-cases s.max_cycles) [
    | inr (m, lim) ↦
        limit_end m fuel (start_clock b t s.max_runtime (t.clear_stop w)) lim valid enough
    | inl lim ↦ elim (Option-cases s.max_runtime) [
      | inr (r, given) ↦
          let v = t.clear_stop w in
          rw given
            (timed_end r fuel (t.time v) lim given valid enough (omega (arith, clock.reads v)))
      | inl given ↦ absurd (ground (arith, rw (lim, given) at valid))
    ]
  ]
