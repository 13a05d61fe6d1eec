-- ===== src/Telemetry.antt =====
-- The draining of the store's outbox into the warehouse (backend/app/services/telemetry.py). The
-- warehouse and the clocks are a parameter, on a world that is passed along. The items of a batch
-- are taken in their order: each one works on its own row and its own deadline alone. The writes of
-- the store do not fail.
pub mod Delay
pub mod Account
pub mod Left
pub mod Drained
pub mod Delivered
use web_accessible.Prelude.{
  Comparable, ◌==◌, nat_eq, eq_of_discrete, contains, dec_beq_iff, Text, codes, text_eq, is_space,
  is_nonempty, text_beq_iff, text_beq_refl, lower_idem, text_beq, lower_char, lower, lstrip, strip,
  is_blank, starts_with, occurs_in, Dict, lookup-put, lookup-remove, lookup-set_default, dict_laws,
  lookup, put, remove, set_default, ℕ, zero, suc, ◌+◌, ◌-◌, ◌*◌, ◌/◌, ◌%◌, ◌≤◌, ◌<◌, ◌≡◌, refl, sym,
  ap, ◌∙◌, ◌≢◌, ◌↔◌, ◌⊎◌, inl, inr, Bool, true, false, not, ◌&&◌, ◌||◌, Option, none, some, List,
  [], ◌∷◌, ◌++◌, map, reverse, arith, ltb, leb, nat_beq, if◌then◌else◌, ltb→lt, lt→ltb, leb→le,
  le→leb, nat_beq_iff, Bool-cases, Option-cases, length, get_elem?, set, take, drop, keep, count,
  any, all, All, length-append, length-set, length-keep, count-le-length, pos_part, neg_part, sub_ℕ,
  leb_ℤ, ltb_ℤ, sub_ℕ-le_iff, sub_ℕ-lt_iff, ℤ, pos, negsuc,
}
use web_accessible.Contracts.Json.{Payload}
use web_accessible.Store.Types.{OutboxRow, Store}
use web_accessible.Store.Outbox.{pending_outbox, mark_outbox}

-- The parameters of `TelemetryService`, its durations in microseconds.
pub record Settings : Type 0 where
  pub poll_interval : ℕ
  pub retry_base : ℕ
  pub retry_max : ℕ
  pub batch_size : ℕ
  pub scan_limit : ℕ
  pub max_concurrency : ℕ

-- `TelemetryService.__init__` raises nothing.
abbrev pub is_valid_settings : Settings → Bool
is_valid_settings c =
    ltb 0 c.poll_interval
    && ltb 0 c.retry_base
    && leb c.retry_base c.retry_max
    && ltb 0 c.batch_size
    && leb c.batch_size c.scan_limit
    && ltb 0 c.max_concurrency

-- What `sync_outbox` answers: `True`, something else, or an exception with its code and whether it is
-- worth another attempt.
pub data Answer : Type 0 where
  acknowledged unacknowledged : Answer
  broken : Text → Bool → Answer

pub record Warehouse : Type 1 where
  pub World : Type 0
  pub sync_outbox : Text → Payload → World → Answer × World
  pub monotonic : World → ℕ × World
  pub now : World → ℕ × World

-- `TelemetryFlushResult`
pub record TelemetryFlushResult : Type 0 where
  pub selected : ℕ
  pub synced : ℕ
  pub failed : ℕ
  pub deferred : ℕ

pub record Drain (o : Warehouse) : Type 0 where
  pub store : Store
  pub retry_at : Dict ℕ ℕ
  pub world : o.World

abbrev pub power : ℕ → ℕ
power zero = 1
power (suc n) = 2 * power n

abbrev pub min : ℕ → ℕ → ℕ
min a b = if ltb b a then b else a

-- `_retry_delay`
unfoldable pub retry_delay : Settings → ℕ → ℕ
retry_delay c attempt_number = min c.retry_max (c.retry_base * power (min (attempt_number - 1) 30))

abbrev pub deadline_of : Dict ℕ ℕ → OutboxRow → ℕ
deadline_of retry_at r = elim (lookup r.id retry_at) [ none ↦ 0 | some t ↦ t ]

abbrev pub is_eligible : Bool → ℕ → Dict ℕ ℕ → OutboxRow → Bool
is_eligible force now retry_at r = force || leb (deadline_of retry_at r) now

-- The loop of `flush` over the rows: those that are eligible, up to `room`, and how many were
-- deferred before the loop ended.
unfoldable pub select : Bool → ℕ → Dict ℕ ℕ → ℕ → List OutboxRow → List OutboxRow × ℕ
unfolding lookup
select force now retry_at zero rows = ([], 0)
select force now retry_at (suc room) [] = ([], 0)
select force now retry_at (suc room) (r ∷ rows) =
    let taken = select force now retry_at room rows in
    let passed = select force now retry_at (suc room) rows in
    if is_eligible force now retry_at r then (r ∷ taken.0, taken.1) else (passed.0, passed.1 + 1)

module _ (o : Warehouse) (c : Settings) where
  abbrev delayed : ℕ → ℕ → Store → Dict ℕ ℕ → ℕ × o.World → Drain o
  delayed id delay s retry_at (t, w) = record {
    store = s;
    retry_at = put id (t + delay) retry_at;
    world = w;
  }

  abbrev failed_at : OutboxRow → Text → Bool → Drain o → ℕ × o.World → Drain o
  failed_at r code retryable d (now, w) =
      delayed r.id (if retryable then retry_delay c (r.attempts + 1) else c.retry_max)
        (mark_outbox r.id false (some code) now d.store) d.retry_at (o.monotonic w)

  -- `_record_failure`
  unfoldable pub record_failure : OutboxRow → Text → Bool → Drain o → Drain o
  unfolding mark_outbox retry_delay put
  record_failure r code retryable d = failed_at r code retryable d (o.now d.world)

  abbrev synced_at : OutboxRow → Drain o → ℕ × o.World → Drain o
  synced_at r d (now, w) = record {
    store = mark_outbox r.id true none now d.store;
    retry_at = remove r.id d.retry_at;
    world = w;
  }

  -- What `_sync_item` does with the warehouse's answer.
  unfoldable pub settle : OutboxRow → Drain o → Answer × o.World → Bool × Drain o
  unfolding record_failure mark_outbox remove
  settle r d (Answer.acknowledged, w) =
      let d' = record d { world = w } in (true, synced_at r d' (o.now w))
  settle r d (Answer.unacknowledged, w) =
      (false, record_failure r (codes "RuntimeError") false (record d { world = w }))
  settle r d (Answer.broken code retryable, w) =
      (false, record_failure r code retryable (record d { world = w }))

  -- `_sync_item`; the payload of a row is always a mapping, and its identifier a text.
  unfoldable pub sync_item : OutboxRow → Drain o → Bool × Drain o
  unfolding settle record_failure
  sync_item r d =
      if is_nonempty r.stable_key && is_nonempty r.kind
      then settle r d (o.sync_outbox r.kind r.payload d.world)
      else (false, record_failure r (codes "invalid_outbox_item") false d)

  -- The items of a batch, and how many of them were synchronized.
  unfoldable pub sync_all : List OutboxRow → Drain o → ℕ × Drain o
  unfolding sync_item
  sync_all [] d = (0, d)
  sync_all (r ∷ rows) d =
      let (ok, d') = sync_item r d in
      let (n, d'') = sync_all rows d' in ((if ok then 1 else 0) + n, d'')

  abbrev pub flush_selected : List OutboxRow × ℕ → Drain o → TelemetryFlushResult × Drain o
  flush_selected (eligible, deferred) d =
      let (n, d') = sync_all eligible d in
      (
        record {
          selected = length eligible;
          synced = n;
          failed = length eligible - n;
          deferred = deferred;
        },
        d',
      )

  abbrev flush_at : Bool → Drain o → ℕ × o.World → TelemetryFlushResult × Drain o
  flush_at force d (now, w) =
      flush_selected
        (select force now d.retry_at c.batch_size (pending_outbox c.scan_limit d.store))
        (record d { world = w })

  -- `flush`
  unfoldable pub flush : Bool → Drain o → TelemetryFlushResult × Drain o
  unfolding select sync_all pending_outbox
  flush force d = flush_at force d (o.monotonic d.world)

  abbrev earliest : ℕ → Dict ℕ ℕ → ℕ
  earliest t [] = t
  earliest t ((i, u) ∷ rest) = earliest (min t u) rest

  abbrev waiting : ℕ → Dict ℕ ℕ → ℕ × o.World → ℕ × o.World
  waiting t rest (now, w) = (min c.poll_interval (earliest t rest - now), w)

  -- `_next_wait_seconds`
  unfoldable pub next_wait : Drain o → ℕ × o.World
  next_wait d = elim d.retry_at [
    | [] ↦ (c.poll_interval, d.world)
    | (i, t) ∷ rest ↦ waiting t rest (o.monotonic d.world)
  ]

  abbrev resting : Drain o → ℕ × o.World → Option ℕ × Drain o
  resting d (t, w) = (some t, record d { world = w })

  abbrev paced : TelemetryFlushResult × Drain o → Option ℕ × Drain o
  paced (result, d) =
      if leb c.batch_size result.selected && result.failed == 0
      then (none, d)
      else resting d (next_wait d)

  -- A turn of `_run` that is not stopped: how long it waits for a wake-up, or `none`, not at all.
  unfoldable pub run_turn : Drain o → Option ℕ × Drain o
  unfolding flush next_wait
  run_turn d = paced (flush false d)
