-- ===== src/Tests/Flushes.antt =====
-- A small outbox and a warehouse that acknowledges (backend/app/services/telemetry.py).
use web_accessible.Prelude.{
  nat_eq, Text, codes, text_eq, ℕ, ◌+◌, ◌≤◌, ◌≡◌, refl, ◌⊎◌, inl, inr, false, List, [], ◌∷◌, arith,
}
use web_accessible.Store.Outbox.{pending_outbox, fresh_row}
use web_accessible.Telemetry.{Settings, Warehouse, Answer, Drain, flush, retry_delay}
use web_accessible.Telemetry.Delay.{retry_delay_bounds}
use web_accessible.Telemetry.Account.{IsAccounted, flush-IsAccounted}
use web_accessible.Contracts.Json.{Payload}
use web_accessible.Telemetry.Drained.{IsAcknowledging, flushes}
use web_accessible.Telemetry.Delivered.{HasLog, AreKeyed, flushes_deliver}
use web_accessible.Tests.Storage.{empty_store}

abbrev one_by_one : Settings
one_by_one = record {
  poll_interval = 10;
  retry_base = 10;
  retry_max = 60;
  batch_size = 1;
  scan_limit = 5;
  max_concurrency = 8;
}

retry_delay_bounds_example :
    (10 ≤ retry_delay one_by_one 2)
    × (retry_delay one_by_one 2 ≤ retry_delay one_by_one 9)
    × (retry_delay one_by_one 9 ≤ 60)
retry_delay_bounds_example = retry_delay_bounds one_by_one 2 9 refl (omega arith)

-- Its world is a clock, and what it has received.
abbrev open_warehouse : Warehouse
open_warehouse = record {
  World = ℕ × List (Text × Payload);
  sync_outbox = λ kind payload w. (Answer.acknowledged, (w.0, (kind, payload) ∷ w.1));
  monotonic = λ w. (w.0, w);
  now = λ w. (w.0, (w.0 + 1, w.1));
}

abbrev IsReceived : Text → Payload → List (Text × Payload) → Type 0
IsReceived kind payload [] = ⊥
IsReceived kind payload (x ∷ xs) = ((x.0 ≡ kind) × (x.1 ≡ payload)) ⊎ IsReceived kind payload xs

logged : HasLog open_warehouse (λ kind payload w. IsReceived kind payload w.1)
logged = record {
  sends = λ kind payload w. inl (refl, refl);
  kept_by_sync = λ kind payload kind' payload' w h. inr h;
  kept_by_now = λ kind payload w h. h;
  kept_by_monotonic = λ kind payload w h. h;
}

abbrev two_items : Drain open_warehouse
two_items = record {
  store = record empty_store {
    outbox =
        fresh_row 1 (codes "task_events") (codes "a") [] 5
        ∷ fresh_row 2 (codes "task_events") (codes "b") [] 4
        ∷ [];
  };
  retry_at = [];
  world = (0, []);
}

flush-IsAccounted_example :
    IsAccounted one_by_one (flush open_warehouse one_by_one false two_items).0
flush-IsAccounted_example = flush-IsAccounted open_warehouse one_by_one false two_items

acknowledging : IsAcknowledging open_warehouse
acknowledging = record { answers = λ kind payload w. refl }

two_keyed : AreKeyed two_items.store
two_keyed = (
  (λ e. (refl, refl), (λ e. absurd (omega (arith, e)), tt)),
  ((λ e. absurd (omega (arith, e)), (λ e. (refl, refl), tt)), tt),
)

flushes_deliver_example :
    IsReceived
      (codes "task_events")
      []
      (flushes open_warehouse one_by_one acknowledging 2 two_items).world.1
    × (pending_outbox 5 (flushes open_warehouse one_by_one acknowledging 2 two_items).store ≡ [])
flushes_deliver_example =
    flushes_deliver open_warehouse one_by_one acknowledging
      (λ kind payload w. IsReceived kind payload w.1) logged 2 5 two_items (codes "task_events") []
      refl (refl, (refl, tt)) two_keyed (omega arith) (inl (refl, refl, refl))
