-- ===== src/Reconcile/Worker.antt =====
-- The loop that repeats the reconciliation on a schedule
-- (backend/app/workers/browser_reconciliation_worker.py). The monotonic clock of the event loop, the
-- stop request and the sink of reports are a parameter, on the world of the two protocols.
pub mod Bounded
pub mod Calls
use web_accessible.Prelude.{
  Comparable, ◌==◌, nat_eq, eq_of_discrete, contains, dec_beq_iff, Text, codes, text_eq, is_space,
  is_nonempty, text_beq_iff, text_beq_refl, lower_idem, text_beq, lower_char, lower, lstrip, strip,
  is_blank, starts_with, occurs_in, Dict, lookup-put, lookup-remove, lookup-set_default, dict_laws,
  lookup, put, remove, set_default, ℕ, zero, suc, ◌+◌, ◌-◌, ◌*◌, ◌/◌, ◌%◌, ◌≤◌, ◌<◌, ◌≡◌, refl, sym,
  ap, ◌∙◌, ◌≢◌, ◌↔◌, ◌⊎◌, inl, inr, Bool, true, false, not, ◌&&◌, ◌||◌, Option, none, some, List,
  [], ◌∷◌, ◌++◌, map, reverse, arith, ltb, leb, nat_beq, if◌then◌else◌, ltb→lt, lt→ltb, leb→le,
  le→leb, nat_beq_iff, Bool-cases, Option-cases, length, get_elem?, set, take, drop, keep, count,
  any, all, All, length-append, length-set, length-keep, count-le-length, pos_part, neg_part, sub_ℕ,
  leb_ℤ, ltb_ℤ, sub_ℕ-le_iff, sub_ℕ-lt_iff, ℤ, pos, negsuc,
}
use web_accessible.Reconcile.Types.{ReconciliationPolicy}
use web_accessible.Reconcile.Report.{ReconciliationReport, is_ok}
use web_accessible.Reconcile.Release.{Backend, reconcile}

-- `WorkerSchedule`, its durations in microseconds.
pub record WorkerSchedule : Type 0 where
  pub interval : ℕ
  pub max_cycles : Option ℕ
  pub max_runtime : Option ℕ
  pub max_consecutive_failures : ℕ

abbrev is_positive : Option ℕ → Bool
is_positive none = true
is_positive (some n) = ltb 0 n

abbrev is_given : Option ℕ → Bool
is_given none = false
is_given (some n) = true

-- `WorkerSchedule.__post_init__` raises nothing.
abbrev pub is_valid_schedule : WorkerSchedule → Bool
is_valid_schedule s =
    ltb 0 s.interval
    && is_positive s.max_cycles
    && is_positive s.max_runtime
    && ltb 0 s.max_consecutive_failures
    && (is_given s.max_cycles || is_given s.max_runtime)

-- `wait` is true where the time ran out before a stop was requested; `emit` is `none` where the sink
-- raises.
pub record Runtime (b : Backend) : Type 0 where
  pub clear_stop : b.World → b.World
  pub is_stopped : b.World → Bool
  pub time : b.World → ℕ × b.World
  pub wait : ℕ → b.World → Bool × b.World
  pub emit : ReconciliationReport → b.World → Option (Unit {0}) × b.World

-- How a pass ended: with its report, with one of the errors that the loop counts, or with another.
pub data Cycle : Type 0 where
  reported : ReconciliationReport → Cycle
  failed broken : Cycle

pub data Ending : Type 0 where
  returned : List ReconciliationReport → Ending
  raised out_of_fuel : Ending

-- The local variables of `run`.
pub record Progress : Type 0 where
  pub cycle : ℕ
  pub failures : ℕ
  pub reports : List ReconciliationReport

pub data Next : Type 0 where
  stops : Ending → Next
  goes : Progress → Next

abbrev pub no_progress : Progress
no_progress = record { cycle = 0; failures = 0; reports = [] }

-- What a pass does to them; `none` is an error that the loop counts.
abbrev pub next_progress : Progress → Option ReconciliationReport → Progress
next_progress g none = record g { cycle = g.cycle + 1; failures = g.failures + 1 }
next_progress g (some report) = record {
  cycle = g.cycle + 1;
  failures = if is_ok report then 0 else g.failures + 1;
  reports = g.reports ++ report ∷ [];
}

abbrev pub is_reached : ℕ → Option ℕ → Bool
is_reached cycle none = false
is_reached cycle (some m) = leb m cycle

module _ (b : Backend) (t : Runtime b) where
  abbrev pub emitted : ReconciliationReport → Option (Unit {0}) × b.World → Cycle × b.World
  emitted report (some u, w) = (Cycle.reported report, w)
  emitted report (none, w) = (Cycle.broken, w)

  abbrev pub pass_ended : Option ReconciliationReport × b.World → Cycle × b.World
  pass_ended (none, w) = (Cycle.failed, w)
  pass_ended (some report, w) = emitted report (t.emit report w)

  -- `run_once`
  unfoldable pub run_once : Bool → ReconciliationPolicy → b.World → Cycle × b.World
  unfolding reconcile
  run_once execute p w = pass_ended (reconcile b execute p w)

  abbrev pub deadline_after : ℕ → ℕ × b.World → Option ℕ × b.World
  deadline_after r (now, w) = (some (now + r), w)

  -- `deadline` of `run`
  abbrev pub start_clock : Option ℕ → b.World → Option ℕ × b.World
  start_clock none w = (none, w)
  start_clock (some r) w = deadline_after r (t.time w)

  abbrev pub waited : Progress → Bool × b.World → Next × b.World
  waited g (true, w) = (Next.goes g, w)
  waited g (false, w) = (Next.stops (Ending.returned g.reports), w)

module _ (b : Backend) (t : Runtime b) (s : WorkerSchedule) where
  -- `_wait_for_next_cycle`, past the reading of the clock.
  abbrev pub await_next : ℕ → ℕ × b.World → Bool × b.World
  await_next deadline (now, w) =
      if leb deadline now
      then (false, w)
      else (if leb (deadline - now) s.interval then (false, w) else t.wait s.interval w)

  -- `_wait_for_next_cycle`
  unfoldable pub wait_for_next_cycle : Option ℕ → b.World → Bool × b.World
  wait_for_next_cycle none w = t.wait s.interval w
  wait_for_next_cycle (some deadline) w = await_next deadline (t.time w)

  -- A turn of the loop of `run`, past its pass.
  unfoldable pub conclude : Option ℕ → Progress → b.World → Next × b.World
  unfolding wait_for_next_cycle
  conclude deadline g w =
      if leb s.max_consecutive_failures g.failures || is_reached g.cycle s.max_cycles
      then (Next.stops (Ending.returned g.reports), w)
      else waited b t g (wait_for_next_cycle deadline w)

  abbrev pub passed : Option ℕ → Progress → Cycle × b.World → Next × b.World
  passed deadline g (Cycle.reported report, w) = conclude deadline (next_progress g (some report)) w
  passed deadline g (Cycle.failed, w) = conclude deadline (next_progress g none) w
  passed deadline g (Cycle.broken, w) = (Next.stops Ending.raised, w)

  -- A turn of the loop of `run`.
  unfoldable pub turn : Bool → ReconciliationPolicy → Option ℕ → Progress → b.World → Next × b.World
  unfolding run_once conclude
  turn execute p deadline g w =
      if t.is_stopped w
      then (Next.stops (Ending.returned g.reports), w)
      else passed deadline g (run_once b t execute p w)

  abbrev pub keep_going :
      (Progress → b.World → Ending × b.World) → Next × b.World → Ending × b.World
  keep_going again (Next.stops e, w) = (e, w)
  keep_going again (Next.goes g, w) = again g w

  -- The loop of `run`, on fuel.
  unfoldable pub cycles :
      Bool → ReconciliationPolicy → ℕ → Option ℕ → Progress → b.World → Ending × b.World
  unfolding turn
  cycles execute p zero deadline g w = (Ending.out_of_fuel, w)
  cycles execute p (suc fuel) deadline g w =
      keep_going (λ g' w'. cycles execute p fuel deadline g' w') (turn execute p deadline g w)

  -- `run`
  unfoldable pub run : Bool → ReconciliationPolicy → ℕ → b.World → Ending × b.World
  unfolding cycles
  run execute p fuel w =
      let (deadline, w') = start_clock b t s.max_runtime (t.clear_stop w) in
      cycles execute p fuel deadline no_progress w'
