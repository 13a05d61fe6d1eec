-- ===== src/Store/Once.antt =====
-- What happens once however often it is asked for (backend/app/persistence/repository.py).
use web_accessible.Prelude.{
  nat_eq, Text, text_eq, text_beq_iff, text_beq_refl, ℕ, ◌≡◌, refl, inl, inr, Bool, true, false,
  ◌||◌, Option, none, some, List, [], ◌∷◌, ◌++◌, map, arith, Bool-cases, Option-cases, any,
}
use web_accessible.Contracts.Event.{EventEnvelope}
use web_accessible.Store.Table.{insert_or_ignore_once}
use web_accessible.Contracts.Json.{Payload}
use web_accessible.Store.Types.{EscalationView, EventRow, OutboxRow, Store}
use web_accessible.Store.Ledger.{append_event}
use web_accessible.Store.Notices.{create_escalation, fresh_escalation, first_where, is_about}
use web_accessible.Store.Outbox.{enqueue, fresh_row, is_keyed, mark_outbox, marked_row}

-- An event that is delivered again, at whatever time and with whatever content, is no new event and
-- leaves the store as the first delivery did.
pub append_event_once :
    (event again : EventEnvelope) (now later : ℕ) (s : Store)
    → again.event_id ≡ event.event_id
    → append_event again later (append_event event now s).0 ≡ ((append_event event now s).0, false)
unfolding append_event
append_event_once event again now later s same =
    let row : EventRow = record {
      session_id = event.session_id;
      page_instance_id = event.page_instance_id;
      sequence_no = event.sequence_no;
      payload = event;
      occurred_at = event.occurred_at;
      accepted_at = now;
    } in
    let copy : EventRow = record {
      session_id = again.session_id;
      page_instance_id = again.page_instance_id;
      sequence_no = again.sequence_no;
      payload = again;
      occurred_at = again.occurred_at;
      accepted_at = later;
    } in
    rw same (ground (arith, insert_or_ignore_once event.event_id row copy s.events))

first_where-snoc {ℓ} :
    {A : Type ℓ} (p : A → Bool) (xs : List A) (y : A)
    → first_where p xs ≡ none
    → p y ≡ true
    → first_where p (xs ++ y ∷ []) ≡ some y
unfolding first_where
first_where-snoc p [] y h t = ground arith
first_where-snoc p (x ∷ xs) y h t = ground (arith, first_where-snoc p xs y)

module _ (fresh k : ℕ) (user reason : Text) (now : ℕ) (s : Store) where
  create_new :
      first_where (is_about k reason) s.escalations ≡ none
      → create_escalation fresh k user reason now s ≡ (
        fresh_escalation fresh k user reason now,
        record s { escalations = s.escalations ++ fresh_escalation fresh k user reason now ∷ [] },
      )
  unfolding create_escalation
  create_new h = rw (h, create_escalation) refl

  create_old :
      (old : EscalationView)
      → first_where (is_about k reason) s.escalations ≡ some old
      → create_escalation fresh k user reason now s ≡ (old, s)
  unfolding create_escalation
  create_old old h = rw (h, create_escalation) refl

-- A second escalation of a session for the same reason is the first one, and changes nothing.
pub create_escalation_once :
    (fresh other k : ℕ) (user user' reason : Text) (now later : ℕ) (s : Store)
    → create_escalation other k user' reason later (create_escalation fresh k user reason now s).1
      ≡ create_escalation fresh k user reason now s
create_escalation_once fresh other k user user' reason now later s =
    let row = fresh_escalation fresh k user reason now in
    let about : is_about k reason row ≡ true = ground (arith, text_beq_refl reason) in
    elim (Option-cases (first_where (is_about k reason) s.escalations)) [
      | inl e ↦ rw (create_new fresh k user reason now s e) (
          create_old other k user' reason later
            (record s { escalations = s.escalations ++ row ∷ [] }) row
            (first_where-snoc (is_about k reason) s.escalations row e about))
      | inr (old, e) ↦
          rw (create_old fresh k user reason now s old e)
            (create_old other k user' reason later s old e)
    ]

-- No two rows of the outbox share their kind and their stable key.
abbrev pub HaveUniqueKeys : List OutboxRow → Type 0
HaveUniqueKeys [] = Unit
HaveUniqueKeys (r ∷ rs) = (any (is_keyed r.kind r.stable_key) rs ≡ false) × HaveUniqueKeys rs

module _ (kind key : Text) where
  any_keyed-snoc :
      (rs : List OutboxRow) (r : OutboxRow)
      → any (is_keyed kind key) (rs ++ r ∷ []) ≡ any (is_keyed kind key) rs || is_keyed kind key r
  any_keyed-snoc [] r = ground arith
  any_keyed-snoc (x ∷ rs) r = ground (arith, any_keyed-snoc rs r)

  any_keyed-marked :
      (item : ℕ) (ok : Bool) (err : Option Text) (now : ℕ) (rs : List OutboxRow)
      → any (is_keyed kind key) (map (marked_row item ok err now) rs) ≡ any (is_keyed kind key) rs
  any_keyed-marked item ok err now [] = refl
  any_keyed-marked item ok err now (r ∷ rs) = ground (arith, any_keyed-marked item ok err now rs)

marked-HaveUniqueKeys :
    (item : ℕ) (ok : Bool) (err : Option Text) (now : ℕ) (rs : List OutboxRow)
    → HaveUniqueKeys rs
    → HaveUniqueKeys (map (marked_row item ok err now) rs)
marked-HaveUniqueKeys item ok err now [] h = tt
marked-HaveUniqueKeys item ok err now (r ∷ rs) h = (
  ground (arith, any_keyed-marked r.kind r.stable_key item ok err now rs),
  marked-HaveUniqueKeys item ok err now rs h.1,
)

snoc-HaveUniqueKeys :
    (rs : List OutboxRow) (r : OutboxRow)
    → any (is_keyed r.kind r.stable_key) rs ≡ false
    → HaveUniqueKeys rs
    → HaveUniqueKeys (rs ++ r ∷ [])
snoc-HaveUniqueKeys [] r n h = (refl, tt)
snoc-HaveUniqueKeys (x ∷ rs) r n h = (
  ground (
    arith,
    any_keyed-snoc x.kind x.stable_key rs r,
    text_beq_iff x.kind r.kind,
    text_beq_iff r.kind x.kind,
    text_beq_iff x.stable_key r.stable_key,
    text_beq_iff r.stable_key x.stable_key,
  ),
  snoc-HaveUniqueKeys rs r (ground arith) h.1,
)

enqueue-HaveUniqueKeys :
    (fresh now : ℕ) (kind key : Text) (p : Payload) (s : Store)
    → HaveUniqueKeys s.outbox
    → HaveUniqueKeys (enqueue fresh kind key p now s).outbox
unfolding enqueue
enqueue-HaveUniqueKeys fresh now kind key p s h =
    elim (Bool-cases (any (is_keyed kind key) s.outbox)) [
      | inl old ↦ rw (old, enqueue) h
      | inr new ↦
          rw (new, enqueue) (snoc-HaveUniqueKeys s.outbox (fresh_row fresh kind key p now) new h)
    ]

enqueue_again :
    (fresh other now later : ℕ) (kind key : Text) (p q : Payload) (s : Store)
    → enqueue other kind key q later (enqueue fresh kind key p now s)
      ≡ enqueue fresh kind key p now s
unfolding enqueue
enqueue_again fresh other now later kind key p q s =
    elim (Bool-cases (any (is_keyed kind key) s.outbox)) [
      | inl old ↦ rw (old, enqueue) (rw (old, enqueue) refl)
      | inr new ↦
          let row = fresh_row fresh kind key p now in
          let both : is_keyed kind key row ≡ true =
            ground (arith, text_beq_refl kind, text_beq_refl key) in
          rw (new, enqueue) (rw (any_keyed-snoc kind key s.outbox row, new, both, enqueue) refl)
    ]

-- The outbox never holds two rows with one kind and stable key, whatever is enqueued or marked; and
-- once a key is enqueued, enqueueing it again changes nothing.
pub enqueue_once :
    (fresh other item now later : ℕ) (kind key : Text) (p q : Payload) (ok : Bool)
    (err : Option Text) (s : Store)
    → HaveUniqueKeys s.outbox
    → HaveUniqueKeys (enqueue fresh kind key p now s).outbox
      × HaveUniqueKeys (mark_outbox item ok err now s).outbox
      × (enqueue other kind key q later (enqueue fresh kind key p now s)
          ≡ enqueue fresh kind key p now s)
unfolding mark_outbox
enqueue_once fresh other item now later kind key p q ok err s h = (
  enqueue-HaveUniqueKeys fresh now kind key p s h,
  marked-HaveUniqueKeys item ok err now s.outbox h,
  enqueue_again fresh other now later kind key p q s,
)
