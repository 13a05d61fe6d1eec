-- ===== src/Telemetry/Drained.antt =====
-- What acknowledges everything drains the outbox (backend/app/services/telemetry.py).
use web_accessible.Prelude.{
  ◌==◌, nat_eq, contains, Text, text_eq, is_nonempty, ℕ, zero, suc, ◌-◌, ◌*◌, ◌≤◌, ◌≡◌, refl, sym,
  ap, ◌∙◌, inl, inr, true, not, ◌&&◌, none, List, [], ◌∷◌, ◌++◌, map, arith, Bool-cases, length,
  take, keep, count, All,
}
use web_accessible.Contracts.Json.{Payload}
use web_accessible.Store.Types.{OutboxRow, Store}
use web_accessible.Store.Table.{order_by}
use web_accessible.Store.Outbox.{pending_outbox, mark_outbox, is_due, marked_row}
use web_accessible.Telemetry.{
  Settings, is_valid_settings, Warehouse, Answer, Drain, sync_item, settle, sync_all, flush,
}
use web_accessible.Telemetry.Left.{
  is_left, ids, backlog, count-mark, count-keep, count-order_by, length-count, ids-AreDone,
  count_rest, take-take, select_forced, All-keep, All-order_by, All-take, length-keep-count,
  count-left_nil, keep-none,
}

-- A row that `_sync_item` accepts.
abbrev pub IsFormed : OutboxRow → Type 0
IsFormed r = (is_nonempty r.stable_key && is_nonempty r.kind) ≡ true

abbrev pub AreFormed : Store → Type 0
AreFormed s = All IsFormed s.outbox

marked-IsFormed :
    (id now : ℕ) (r : OutboxRow) → IsFormed r → IsFormed (marked_row id true none now r)
marked-IsFormed id now r h = elim (Bool-cases (r.id == id)) [ inl t ↦ rw t h | inr f ↦ rw f h ]

mark-AreFormed :
    (id now : ℕ) (rows : List OutboxRow)
    → All IsFormed rows
    → All IsFormed (map (marked_row id true none now) rows)
mark-AreFormed id now [] h = tt
mark-AreFormed id now (r ∷ rows) h = (marked-IsFormed id now r h.0, mark-AreFormed id now rows h.1)

-- The warehouse acknowledges whatever it is sent.
pub record IsAcknowledging (o : Warehouse) : Type 0 where
  pub answers :
      (kind : Text) (payload : Payload) (w : o.World)
      → (o.sync_outbox kind payload w).0 ≡ Answer.acknowledged

take_nil : {A : Type 0} (n : ℕ) → take {A = A} n [] ≡ []
take_nil zero = refl
take_nil (suc n) = refl

module _ (o : Warehouse) (c : Settings) (ack : IsAcknowledging o) where
  settle-store :
      (r : OutboxRow) (d : Drain o) (x : Answer × o.World)
      → x.0 ≡ Answer.acknowledged
      → (settle o c r d x).1.store ≡ mark_outbox r.id true none (o.now x.1).0 d.store
  unfolding settle
  settle-store r d (Answer.acknowledged, w) h = refl
  settle-store r d (Answer.unacknowledged, w) h = absurd cc
  settle-store r d (Answer.broken code retryable, w) h = absurd cc

  pub item-store :
      (r : OutboxRow) (d : Drain o)
      → IsFormed r
      → (sync_item o c r d).1.store
        ≡ mark_outbox r.id true none (o.now (o.sync_outbox r.kind r.payload d.world).1).0 d.store
  unfolding sync_item
  item-store r d h = rw h (
      settle-store r d (o.sync_outbox r.kind r.payload d.world)
        (ack.answers r.kind r.payload d.world))

  item_left :
      (r : OutboxRow) (done : List ℕ) (d : Drain o)
      → IsFormed r
      → count (is_left done) (sync_item o c r d).1.store.outbox
        ≡ count (is_left (r.id ∷ done)) d.store.outbox
  unfolding mark_outbox
  item_left r done d h =
      ap (λ s. count (is_left done) s.outbox) (item-store r d h)
      ∙ count-mark r.id _ done d.store.outbox

  item-AreFormed :
      (r : OutboxRow) (d : Drain o)
      → IsFormed r
      → AreFormed d.store
      → AreFormed (sync_item o c r d).1.store
  unfolding mark_outbox
  item-AreFormed r d h f = rw (item-store r d h) (mark-AreFormed r.id _ d.store.outbox f)

  -- A batch that is sent leaves what waits beside its items.
  batch_left :
      (rows : List OutboxRow) (done : List ℕ) (d : Drain o)
      → All IsFormed rows
      → AreFormed d.store
      → (count (is_left done) (sync_all o c rows d).1.store.outbox
          ≡ count (is_left (ids rows ++ done)) d.store.outbox)
        × AreFormed (sync_all o c rows d).1.store
  unfolding sync_all
  batch_left [] done d h f = (refl, f)
  batch_left (r ∷ rows) done d h f =
      let z = batch_left rows done (sync_item o c r d).1 h.1 (item-AreFormed r d h.0 f) in
      (z.0 ∙ item_left r (ids rows ++ done) d h.0, z.1)

  -- The rows that wait, in the order in which they are sent.
  abbrev waiting_rows : Store → List OutboxRow
  waiting_rows s = order_by (λ (r : OutboxRow). r.created_at) (keep is_due s.outbox)

  backlog-waiting_rows : (s : Store) → length (waiting_rows s) ≡ backlog s
  backlog-waiting_rows s =
      sym (length-count (waiting_rows s))
      ∙ count-order_by (λ r. true) _ (keep is_due s.outbox)
      ∙ length-count (keep is_due s.outbox)
      ∙ length-keep-count is_due s.outbox

  batch_backlog :
      (d : Drain o)
      → AreFormed d.store
      → let rows = take c.batch_size (waiting_rows d.store) in
        (backlog (sync_all o c rows d).1.store ≤ backlog d.store - c.batch_size)
        × AreFormed (sync_all o c rows d).1.store
  batch_backlog d f =
      let rows = take c.batch_size (waiting_rows d.store) in
      let done = ids rows ++ [] in
      let formed = All-take IsFormed c.batch_size (waiting_rows d.store) (
        All-order_by IsFormed _ (keep is_due d.store.outbox)
          (All-keep IsFormed is_due d.store.outbox f)) in
      let z = batch_left rows [] d formed f in
      let beside = λ (r : OutboxRow). not (contains done r.id) in
      (
        omega (
          arith,
          z.0,
          count-left_nil (sync_all o c rows d).1.store.outbox,
          count-keep is_due beside d.store.outbox,
          count-order_by beside (λ (r : OutboxRow). r.created_at) (keep is_due d.store.outbox),
          count_rest c.batch_size (waiting_rows d.store) done (ids-AreDone rows []),
          backlog-waiting_rows d.store,
        ),
        z.1,
      )

  pub flush-backlog :
      (d : Drain o)
      → c.batch_size ≤ c.scan_limit
      → AreFormed d.store
      → (backlog (flush o c true d).1.store ≤ backlog d.store - c.batch_size)
        × AreFormed (flush o c true d).1.store
  unfolding flush pending_outbox
  flush-backlog d le f =
      let (now, w) = o.monotonic d.world in
      rw
        (
          select_forced now d.retry_at c.batch_size (take c.scan_limit (waiting_rows d.store)),
          take-take c.batch_size c.scan_limit (waiting_rows d.store) le,
        )
        (batch_backlog (record d { world = w }) f)

  -- Forced flushes, one after another.
  abbrev pub flushes : ℕ → Drain o → Drain o
  flushes zero d = d
  flushes (suc n) d = flushes n (flush o c true d).1

  pub flushes-backlog :
      (n : ℕ) (d : Drain o)
      → c.batch_size ≤ c.scan_limit
      → AreFormed d.store
      → backlog d.store ≤ n * c.batch_size
      → backlog (flushes n d).store ≡ 0
  flushes-backlog zero d le f h = omega (arith, h)
  flushes-backlog (suc n) d le f h =
      let z = flush-backlog d le f in
      flushes-backlog n (flush o c true d).1 le z.1 (omega (arith, z.0, h))

  -- Under valid settings, with a warehouse that acknowledges whatever it is sent, nothing is pending
  -- after as many forced flushes as batches cover what waits, if each row of the outbox names its
  -- kind and its key.
  pub flushes_drain :
      (n limit : ℕ) (d : Drain o)
      → is_valid_settings c ≡ true
      → AreFormed d.store
      → backlog d.store ≤ n * c.batch_size
      → pending_outbox limit (flushes n d).store ≡ []
  unfolding pending_outbox
  flushes_drain n limit d valid f h =
      let empty = flushes-backlog n d (ground (arith, valid)) f h in
      rw (keep-none is_due (flushes n d).store.outbox empty) (take_nil limit)
