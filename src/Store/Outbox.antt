-- ===== src/Store/Outbox.antt =====
-- The outbox of telemetry that waits for the warehouse (backend/app/persistence/repository.py).
use web_accessible.Prelude.{
  codes, put, ◌==◌, nat_eq, Text, text_eq, ℕ, ◌+◌, Bool, true, false, ◌&&◌, Option, none, List, [],
  ◌∷◌, ◌++◌, map, if◌then◌else◌, take, keep, any,
}
use web_accessible.Store.Table.{order_by, insert_or_ignore}
use web_accessible.Store.Types.{OutboxRow, OutboxStatus, Store}
use web_accessible.Contracts.Json.{Payload, instant}

abbrev pub is_keyed : Text → Text → OutboxRow → Bool
is_keyed kind stable_key r = r.kind == kind && r.stable_key == stable_key

-- The row of a new item.
abbrev pub fresh_row : ℕ → Text → Text → Payload → ℕ → OutboxRow
fresh_row fresh kind stable_key payload now = record {
  id = fresh;
  kind = kind;
  stable_key = stable_key;
  payload = payload;
  status = OutboxStatus.pending;
  attempts = 0;
  last_error_code = none;
  created_at = now;
  updated_at = now;
}

-- `enqueue`, `INSERT OR IGNORE` under the kind and the stable key; `fresh` is the new UUID.
unfoldable pub enqueue : ℕ → Text → Text → Payload → ℕ → Store → Store
enqueue fresh kind stable_key payload now s =
    if any (is_keyed kind stable_key) s.outbox
    then s
    else record s { outbox = s.outbox ++ fresh_row fresh kind stable_key payload now ∷ [] }

-- `status IN ('pending', 'failed')`
abbrev pub is_due : OutboxRow → Bool
is_due r = elim r.status [ OutboxStatus.synced ↦ false | _ ↦ true ]

-- `pending_outbox`
unfoldable pub pending_outbox : ℕ → Store → List OutboxRow
unfolding order_by
pending_outbox limit s =
    take limit (order_by (λ (r : OutboxRow). r.created_at) (keep is_due s.outbox))

abbrev pub marked_row : ℕ → Bool → Option Text → ℕ → OutboxRow → OutboxRow
marked_row item_id synced error_code now r =
    if r.id == item_id
    then record r {
      status = if synced then OutboxStatus.synced else OutboxStatus.failed;
      attempts = r.attempts + 1;
      last_error_code = error_code;
      updated_at = now;
    }
    else r

-- `mark_outbox`
unfoldable pub mark_outbox : ℕ → Bool → Option Text → ℕ → Store → Store
mark_outbox item_id synced error_code now s = record s {
  outbox = map (marked_row item_id synced error_code now) s.outbox;
}

-- `save_model_call`, `INSERT OR IGNORE` under the call.
unfoldable pub save_model_call : ℕ → Payload → ℕ → Store → Store
unfolding insert_or_ignore
save_model_call call_id values now s = record s {
  model_calls =
      (insert_or_ignore call_id (put (codes "created_at") (instant now) values) s.model_calls).0;
}
