-- ===== src/Telemetry/Account.antt =====
-- What a flush reports (backend/app/services/telemetry.py).
use web_accessible.Prelude.{
  nat_eq, text_eq, Dict, ℕ, zero, suc, ◌+◌, ◌≤◌, ◌≡◌, inl, inr, Bool, List, [], ◌∷◌, arith,
  Bool-cases, length, take,
}
use web_accessible.Store.Types.{OutboxRow, Store}
use web_accessible.Store.Outbox.{pending_outbox}
use web_accessible.Telemetry.{
  Settings, Warehouse, Drain, TelemetryFlushResult, select, is_eligible, sync_item, sync_all, flush,
  flush_selected,
}

length-take : {A : Type 0} (n : ℕ) (xs : List A) → length (take n xs) ≤ n
length-take zero xs = omega arith
length-take (suc n) [] = omega arith
length-take (suc n) (x ∷ xs) = omega (arith, length-take n xs)

length-pending_outbox : (limit : ℕ) (s : Store) → length (pending_outbox limit s) ≤ limit
unfolding pending_outbox
length-pending_outbox limit s = length-take limit _

select_bounds :
    (force : Bool) (now : ℕ) (retry_at : Dict ℕ ℕ) (room : ℕ) (rows : List OutboxRow)
    → (length (select force now retry_at room rows).0 ≤ room)
      × (length (select force now retry_at room rows).0 + (select force now retry_at room rows).1
          ≤ length rows)
unfolding select
select_bounds force now retry_at zero rows = (omega arith, omega arith)
select_bounds force now retry_at (suc room) [] = (omega arith, omega arith)
select_bounds force now retry_at (suc room) (r ∷ rows) =
    elim (Bool-cases (is_eligible force now retry_at r)) [
      | inl h ↦ rw h (
          let z = select_bounds force now retry_at room rows in
          (omega (arith, z), omega (arith, z)))
      | inr h ↦ rw h (
          let z = select_bounds force now retry_at (suc room) rows in
          (omega (arith, z), omega (arith, z)))
    ]

abbrev pub IsAccounted : Settings → TelemetryFlushResult → Type 0
IsAccounted c t =
    (t.selected ≡ t.synced + t.failed)
    × (t.selected ≤ c.batch_size)
    × (t.selected + t.deferred ≤ c.scan_limit)

module _ (o : Warehouse) (c : Settings) where
  synced_le : (rows : List OutboxRow) (d : Drain o) → (sync_all o c rows d).0 ≤ length rows
  unfolding sync_all
  synced_le [] d = omega arith
  synced_le (r ∷ rows) d = ground (arith, synced_le rows (sync_item o c r d).1)

  selected_lem :
      (x : List OutboxRow × ℕ) (d : Drain o)
      → length x.0 ≤ c.batch_size
      → length x.0 + x.1 ≤ c.scan_limit
      → IsAccounted c (flush_selected o c x d).0
  selected_lem x d h l = (omega (arith, synced_le x.0 d), h, l)

  -- Each selected item was synchronized or failed; and a flush selects no more items than a batch
  -- holds, and together with those that it deferred no more than it scanned for.
  pub flush-IsAccounted : (force : Bool) (d : Drain o) → IsAccounted c (flush o c force d).0
  unfolding flush
  flush-IsAccounted force d =
      let now = o.monotonic d.world in
      let rows = pending_outbox c.scan_limit d.store in
      let z = select_bounds force now.0 d.retry_at c.batch_size rows in
      selected_lem (select force now.0 d.retry_at c.batch_size rows) (record d { world = now.1 })
        z.0 (omega (arith, z.1, length-pending_outbox c.scan_limit d.store))
