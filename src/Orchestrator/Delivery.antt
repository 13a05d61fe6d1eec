-- ===== src/Orchestrator/Delivery.antt =====
-- What an event that is delivered again, or belongs to another browser, does
-- (backend/app/services/orchestrator.py).
use web_accessible.Prelude.{
  ◌==◌, nat_eq, Text, text_eq, text_beq_iff, lookup, ℕ, ◌≡◌, refl, sym, ap, ◌≢◌, ◌↔◌, ◌⊎◌, inl, inr,
  Bool, true, false, Option, none, some, arith, Bool-cases, Option-cases,
}
use web_accessible.Contracts.Event.{EventEnvelope}
use web_accessible.Store.Types.{SessionView, EventRow, Store}
use web_accessible.Store.Sessions.{get_session}
use web_accessible.Store.Table.{insert_or_ignore}
use web_accessible.Store.Ledger.{append_event}
use web_accessible.Orchestrator.Desk.{Outside, Desk, Config, and_then, cond_m, ret, ◌>>=◌}
use web_accessible.Orchestrator.Moves.{require_session}
use web_accessible.Orchestrator.Events.{handle_event, is_bound, on_new_event}

append_event_old :
    (event : EventEnvelope) (now : ℕ) (s : Store) (row : EventRow)
    → lookup event.event_id s.events ≡ some row
    → append_event event now s ≡ (s, false)
unfolding append_event
append_event_old event now s row h = rw (h, insert_or_ignore) refl

append_event_new :
    (event : EventEnvelope) (now : ℕ) (s : Store)
    → lookup event.event_id s.events ≡ none
    → (append_event event now s).1 ≡ true
unfolding append_event
append_event_new event now s h = rw (h, insert_or_ignore) refl

-- The event names the session's participant and browser session.
abbrev pub Names : EventEnvelope → SessionView → Type 0
Names event session =
    (event.user_id ≡ session.user_id)
    × (session.browserbase_session_id ≡ some event.browserbase_session_id)

module _ (o : Outside) (c : Config) (event : EventEnvelope) (session : SessionView) where
  provider_named :
      (p : Option Text)
      → (elim p [ none ↦ false | some provider ↦ event.browserbase_session_id == provider ] ≡ true)
        ↔ (p ≡ some event.browserbase_session_id)
  provider_named none = (λ h. cc h, λ h. cc h)
  provider_named (some t) =
      let same = text_beq_iff event.browserbase_session_id t in
      (λ h. ap (λ x. some x) (sym (same.0 h)), λ h. same.1 (cc h))

  pub is_bound-Names : (is_bound o c session event ≡ true) ↔ Names event session
  is_bound-Names =
      let user = text_beq_iff event.user_id session.user_id in
      let browser = provider_named session.browserbase_session_id in
      (
        λ h. (user.0 (ground arith), browser.0 (ground arith)),
        λ h. ground (arith, user.1 h.0, browser.1 h.1),
      )

module _ (o : Outside) (c : Config) (event : EventEnvelope) (d : Desk o) where
  unknown_raises :
      get_session event.session_id d.store ≡ none → handle_event o c event d ≡ (none, d)
  unfolding handle_event require_session
  unknown_raises gone = rw gone refl

  unbound_raises :
      (session : SessionView)
      → get_session event.session_id d.store ≡ some session
      → is_bound o c session event ≡ false
      → handle_event o c event d ≡ (none, d)
  unfolding handle_event require_session
  unbound_raises session found unbound = rw (found, unbound) refl

  -- An event of a session that is not known, or that names another participant or another browser
  -- session than the session's, or comes while the session has none, raises an exception and changes
  -- nothing.
  pub unbound_event_refused :
      ((session : SessionView)
        → get_session event.session_id d.store ≡ some session
        → (event.user_id ≢ session.user_id)
          ⊎ (session.browserbase_session_id ≢ some event.browserbase_session_id))
      → handle_event o c event d ≡ (none, d)
  unbound_event_refused other = elim (Option-cases (get_session event.session_id d.store)) [
    | inl gone ↦ unknown_raises gone
    | inr (session, found) ↦ elim (Bool-cases (is_bound o c session event)) [
      | inl bound ↦
          let names = (is_bound-Names o c event session).0 bound in
          elim (other session found) [
            | inl user ↦ absurd (user names.0)
            | inr browser ↦ absurd (browser names.1)
          ]
      | inr unbound ↦ unbound_raises session found unbound
    ]
  ]

  old_handled :
      (session : SessionView) (row : EventRow)
      → get_session event.session_id d.store ≡ some session
      → is_bound o c session event ≡ true
      → lookup event.event_id d.store.events ≡ some row
      → handle_event o c event d ≡ (some false, record d { outside = (o.now d.outside).1 })
  unfolding handle_event require_session
  old_handled session row found bound old =
      rw (found, bound)
        (ap
          (λ (p : Store × Bool).
            and_then (some p.1, record d { outside = (o.now d.outside).1; store = p.0 })
              (λ new. cond_m new (on_new_event o c session event >>= λ u. ret true) (ret false)))
          (append_event_old event (o.now d.outside).0 d.store row old))

  -- The desk when a new event has been appended.
  abbrev pub appended : Desk o
  appended = record d {
    outside = (o.now d.outside).1;
    store = (append_event event (o.now d.outside).0 d.store).0;
  }

  pub new_handled :
      (session : SessionView)
      → get_session event.session_id d.store ≡ some session
      → is_bound o c session event ≡ true
      → lookup event.event_id d.store.events ≡ none
      → handle_event o c event d
        ≡ and_then (on_new_event o c session event appended) (λ u. ret true)
  unfolding handle_event require_session
  new_handled session found bound new =
      rw (found, bound, append_event_new event (o.now d.outside).0 d.store new) refl

  -- An event is known, and answered as a duplicate.
  abbrev pub IsDelivered : Type 0
  IsDelivered =
      (session : SessionView) × (get_session event.session_id d.store ≡ some session)
      × Names event session
      × (row : EventRow) × (lookup event.event_id d.store.events ≡ some row)

  pub delivered :
      IsDelivered
      → handle_event o c event d ≡ (some false, record d { outside = (o.now d.outside).1 })
  delivered (session, found, names, row, old) =
      old_handled session row found ((is_bound-Names o c event session).1 names) old
