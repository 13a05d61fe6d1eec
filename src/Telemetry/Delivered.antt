-- ===== src/Telemetry/Delivered.antt =====
-- What waits reaches the warehouse (backend/app/services/telemetry.py).
use web_accessible.Prelude.{
  ◌==◌, nat_eq, Text, text_eq, ℕ, zero, suc, ◌*◌, ◌≤◌, ◌≡◌, refl, sym, ◌∙◌, ◌⊎◌, inl, inr, true,
  none, List, [], ◌∷◌, map, arith, nat_beq_iff, Bool-cases, take, keep, count, All,
}
use web_accessible.Contracts.Json.{Payload}
use web_accessible.Store.Types.{OutboxRow, Store}
use web_accessible.Store.Table.{order_by}
use web_accessible.Store.Outbox.{pending_outbox, mark_outbox, is_due, marked_row}
use web_accessible.Telemetry.{
  Settings, is_valid_settings, Warehouse, Answer, Drain, sync_item, settle, sync_all, flush,
}
use web_accessible.Telemetry.Left.{
  backlog, take-take, select_forced, All-keep, All-order_by, All-take,
}
use web_accessible.Telemetry.Drained.{
  IsFormed, AreFormed, IsAcknowledging, item-store, flush-backlog, flushes, flushes-backlog,
  flushes_drain,
}

-- What a warehouse has received. It has an item that was just sent, and what it has stays.
pub record HasLog (o : Warehouse) (Received : Text → Payload → o.World → Type 0) : Type 0 where
  pub sends :
      (kind : Text) (payload : Payload) (w : o.World)
      → Received kind payload (o.sync_outbox kind payload w).1
  pub kept_by_sync :
      (kind : Text) (payload : Payload) (kind' : Text) (payload' : Payload) (w : o.World)
      → Received kind payload w
      → Received kind payload (o.sync_outbox kind' payload' w).1
  pub kept_by_now :
      (kind : Text) (payload : Payload) (w : o.World)
      → Received kind payload w
      → Received kind payload (o.now w).1
  pub kept_by_monotonic :
      (kind : Text) (payload : Payload) (w : o.World)
      → Received kind payload w
      → Received kind payload (o.monotonic w).1

-- A due row of this kind and payload is among the rows.
abbrev pub Awaits : Text → Payload → List OutboxRow → Type 0
Awaits kind payload [] = ⊥
Awaits kind payload (r ∷ rows) =
    ((is_due r ≡ true) × (r.kind ≡ kind) × (r.payload ≡ payload)) ⊎ Awaits kind payload rows

-- A row under the same identifier is the same item.
abbrev Agrees : OutboxRow → List OutboxRow → Type 0
Agrees r rows =
    All (λ (x : OutboxRow). x.id ≡ r.id → (x.kind ≡ r.kind) × (x.payload ≡ r.payload)) rows

-- The outbox is keyed by its identifiers.
abbrev pub AreKeyed : Store → Type 0
AreKeyed s = All (λ (r : OutboxRow). Agrees r s.outbox) s.outbox

module _ (id now : ℕ) where
  marked_same :
      (r : OutboxRow)
      → ((marked_row id true none now r).id ≡ r.id)
        × ((marked_row id true none now r).kind ≡ r.kind)
        × ((marked_row id true none now r).payload ≡ r.payload)
  marked_same r = elim (Bool-cases (r.id == id)) [
    | inl t ↦ rw t (refl, refl, refl)
    | inr f ↦ rw f (refl, refl, refl)
  ]

  marked-Agrees :
      (r : OutboxRow) (rows : List OutboxRow)
      → Agrees r rows
      → Agrees r (map (marked_row id true none now) rows)
  marked-Agrees r [] h = tt
  marked-Agrees r (x ∷ xs) h =
      let z = marked_same x in
      (λ e. let y = h.0 (sym z.0 ∙ e) in (z.1 ∙ y.0, z.2 ∙ y.1), marked-Agrees r xs h.1)

  Agrees-marked :
      (r : OutboxRow) (rows : List OutboxRow)
      → Agrees r rows
      → Agrees (marked_row id true none now r) rows
  Agrees-marked r rows h = elim (Bool-cases (r.id == id)) [ inl t ↦ rw t h | inr f ↦ rw f h ]

  All-marked :
      (rows all_rows : List OutboxRow)
      → All (λ (r : OutboxRow). Agrees r all_rows) rows
      → All
          (λ (r : OutboxRow). Agrees r (map (marked_row id true none now) all_rows))
          (map (marked_row id true none now) rows)
  All-marked [] all_rows h = tt
  All-marked (r ∷ rs) all_rows h = (
    Agrees-marked r (map (marked_row id true none now) all_rows) (marked-Agrees r all_rows h.0),
    All-marked rs all_rows h.1,
  )

  -- Marking an item leaves every row that waits, unless it is the item's.
  Awaits-marked :
      (r : OutboxRow) (rows : List OutboxRow) (kind : Text) (payload : Payload)
      → r.id ≡ id
      → Agrees r rows
      → Awaits kind payload rows
      → ((r.kind ≡ kind) × (r.payload ≡ payload))
        ⊎ Awaits kind payload (map (marked_row id true none now) rows)
  Awaits-marked r [] kind payload same h a = absurd a
  Awaits-marked r (x ∷ xs) kind payload same h (inl a) = elim (Bool-cases (x.id == id)) [
    | inl t ↦
        let z = h.0 ((nat_beq_iff x.id id).0 t ∙ sym same) in inl (sym z.0 ∙ a.1, sym z.1 ∙ a.2)
    | inr f ↦ inr (inl (rw f a))
  ]
  Awaits-marked r (x ∷ xs) kind payload same h (inr a) =
      elim (Awaits-marked r xs kind payload same h.1 a) [
        | inl sent ↦ inl sent
        | inr left ↦ inr (inr left)
      ]

none-Awaits :
    (kind : Text) (payload : Payload) (rows : List OutboxRow)
    → count is_due rows ≡ 0
    → Awaits kind payload rows
    → ⊥
none-Awaits kind payload [] h a = a
none-Awaits kind payload (r ∷ rows) h (inl a) = absurd (ground (arith, h, a.0))
none-Awaits kind payload (r ∷ rows) h (inr a) = none-Awaits kind payload rows (ground (arith, h)) a

module _ (o : Warehouse) (c : Settings) (ack : IsAcknowledging o)
    (Received : Text → Payload → o.World → Type 0) (log : HasLog o Received) where
  settle-world :
      (r : OutboxRow) (d : Drain o) (x : Answer × o.World)
      → x.0 ≡ Answer.acknowledged
      → (settle o c r d x).1.world ≡ (o.now x.1).1
  unfolding settle
  settle-world r d (Answer.acknowledged, w) h = refl
  settle-world r d (Answer.unacknowledged, w) h = absurd cc
  settle-world r d (Answer.broken code retryable, w) h = absurd cc

  item-world :
      (r : OutboxRow) (d : Drain o)
      → IsFormed r
      → (sync_item o c r d).1.world ≡ (o.now (o.sync_outbox r.kind r.payload d.world).1).1
  unfolding sync_item
  item-world r d h = rw h (
      settle-world r d (o.sync_outbox r.kind r.payload d.world)
        (ack.answers r.kind r.payload d.world))

  -- An item that was sent, or still waits.
  abbrev IsSafe : Text → Payload → Drain o → Type 0
  IsSafe kind payload d = Received kind payload d.world ⊎ Awaits kind payload d.store.outbox

  item-Agrees :
      (r x : OutboxRow) (d : Drain o)
      → IsFormed r
      → Agrees x d.store.outbox
      → Agrees x (sync_item o c r d).1.store.outbox
  unfolding mark_outbox
  item-Agrees r x d f h = rw (item-store o c ack r d f) (marked-Agrees r.id _ x d.store.outbox h)

  items-Agree :
      (r : OutboxRow) (rows : List OutboxRow) (d : Drain o)
      → IsFormed r
      → All (λ (x : OutboxRow). Agrees x d.store.outbox) rows
      → All (λ (x : OutboxRow). Agrees x (sync_item o c r d).1.store.outbox) rows
  items-Agree r [] d f h = tt
  items-Agree r (x ∷ xs) d f h = (item-Agrees r x d f h.0, items-Agree r xs d f h.1)

  item-AreKeyed :
      (r : OutboxRow) (d : Drain o)
      → IsFormed r
      → AreKeyed d.store
      → AreKeyed (sync_item o c r d).1.store
  unfolding mark_outbox
  item-AreKeyed r d f h =
      rw (item-store o c ack r d f) (All-marked r.id _ d.store.outbox d.store.outbox h)

  item-IsSafe :
      (r : OutboxRow) (d : Drain o) (kind : Text) (payload : Payload)
      → IsFormed r
      → Agrees r d.store.outbox
      → IsSafe kind payload d
      → IsSafe kind payload (sync_item o c r d).1
  unfolding mark_outbox
  item-IsSafe r d kind payload f h (inl sent) = inl (
      rw (item-world r d f) (
        log.kept_by_now kind payload _
          (log.kept_by_sync kind payload r.kind r.payload d.world sent)))
  item-IsSafe r d kind payload f h (inr waits) =
      elim (Awaits-marked r.id (o.now (o.sync_outbox r.kind r.payload d.world).1).0 r d.store.outbox
        kind payload refl h waits) [
          | inl own ↦ inl (
              rw (item-world r d f, ← own.0, ← own.1)
                (log.kept_by_now r.kind r.payload _ (log.sends r.kind r.payload d.world)))
          | inr left ↦ inr (rw (item-store o c ack r d f) left)
        ]

  batch-IsSafe :
      (rows : List OutboxRow) (d : Drain o) (kind : Text) (payload : Payload)
      → All IsFormed rows
      → All (λ (r : OutboxRow). Agrees r d.store.outbox) rows
      → AreKeyed d.store
      → IsSafe kind payload d
      → IsSafe kind payload (sync_all o c rows d).1 × AreKeyed (sync_all o c rows d).1.store
  unfolding sync_all
  batch-IsSafe [] d kind payload f h k s = (s, k)
  batch-IsSafe (r ∷ rows) d kind payload f h k s =
      batch-IsSafe rows (sync_item o c r d).1 kind payload f.1 (items-Agree r rows d f.0 h.1)
        (item-AreKeyed r d f.0 k) (item-IsSafe r d kind payload f.0 h.0 s)

  flush-IsSafe :
      (d : Drain o) (kind : Text) (payload : Payload)
      → c.batch_size ≤ c.scan_limit
      → AreFormed d.store
      → AreKeyed d.store
      → IsSafe kind payload d
      → IsSafe kind payload (flush o c true d).1 × AreKeyed (flush o c true d).1.store
  unfolding flush pending_outbox
  flush-IsSafe d kind payload le f k s =
      let (now, w) = o.monotonic d.world in
      let rows = order_by (λ (r : OutboxRow). r.created_at) (keep is_due d.store.outbox) in
      let later : IsSafe kind payload (record d { world = w }) = elim s [
        | inl sent ↦ inl (log.kept_by_monotonic kind payload d.world sent)
        | inr waits ↦ inr waits
      ] in
      rw
        (
          select_forced now d.retry_at c.batch_size (take c.scan_limit rows),
          take-take c.batch_size c.scan_limit rows le,
        )
        (batch-IsSafe (take c.batch_size rows) (record d { world = w }) kind payload
          (All-take IsFormed c.batch_size rows (
            All-order_by IsFormed _ (keep is_due d.store.outbox)
              (All-keep IsFormed is_due d.store.outbox f)))
          (All-take (λ r. Agrees r d.store.outbox) c.batch_size rows
            (All-order_by (λ r. Agrees r d.store.outbox) _ (keep is_due d.store.outbox)
              (All-keep (λ r. Agrees r d.store.outbox) is_due d.store.outbox k)))
          k later)

  flushes-IsSafe :
      (n : ℕ) (d : Drain o) (kind : Text) (payload : Payload)
      → c.batch_size ≤ c.scan_limit
      → AreFormed d.store
      → AreKeyed d.store
      → IsSafe kind payload d
      → IsSafe kind payload (flushes o c ack n d)
  flushes-IsSafe zero d kind payload le f k s = s
  flushes-IsSafe (suc n) d kind payload le f k s =
      let z = flush-IsSafe d kind payload le f k s in
      flushes-IsSafe n (flush o c true d).1 kind payload le (flush-backlog o c ack d le f).1 z.1 z.0

  -- Under valid settings, a warehouse that acknowledges whatever it is sent has everything after as
  -- many forced flushes as batches cover what waits: it has received the kind and the payload of
  -- each row that was due, and nothing is pending, if the outbox is keyed by its identifiers and each
  -- row names its kind and its key.
  pub flushes_deliver :
      (n limit : ℕ) (d : Drain o) (kind : Text) (payload : Payload)
      → is_valid_settings c ≡ true
      → AreFormed d.store
      → AreKeyed d.store
      → backlog d.store ≤ n * c.batch_size
      → Awaits kind payload d.store.outbox
      → Received kind payload (flushes o c ack n d).world
        × (pending_outbox limit (flushes o c ack n d).store ≡ [])
  flushes_deliver n limit d kind payload valid f k h waits =
      let le : c.batch_size ≤ c.scan_limit = ground (arith, valid) in
      let empty = flushes-backlog o c ack n d le f h in
      (
        elim (flushes-IsSafe n d kind payload le f k (inr waits)) [
          | inl sent ↦ sent
          | inr left ↦
              absurd (none-Awaits kind payload (flushes o c ack n d).store.outbox empty left)
        ],
        flushes_drain o c ack n limit d valid f h,
      )
