-- ===== src/Orchestrator/Walk/Writes.antt =====
-- What `update`, `transition` and `_require_session` leave
-- (backend/app/services/orchestrator.py).
use mathlib.Core.Path.{subst}
use web_accessible.Prelude.{
  nat_eq, text_eq, Dict, lookup, put, ℕ, ◌≡◌, refl, ap, inl, inr, Bool, true, Option, some, arith,
  Bool-cases, Option-cases,
}
use web_accessible.Contracts.State.{SessionState}
use web_accessible.Session.{ensure_transition}
use web_accessible.Session.Reach.{Reach}
use web_accessible.Store.Types.{SessionView, SessionRow}
use web_accessible.Session.{ensure_transition}
use web_accessible.Store.Sessions.{get_session, update_session, updated_view, set_columns}
use web_accessible.Orchestrator.Desk.{Outside, Desk}
use web_accessible.Orchestrator.Moves.{require_session, update, transition, written}
use web_accessible.Orchestrator.Desk.{Outside, Desk}
use web_accessible.Orchestrator.Moves.{require_session, update, transition, written}
use web_accessible.Orchestrator.Walk.{Moves, payload_of, held, IsLawful, IsCurrent}
use web_accessible.Orchestrator.Walk.Rules.{table}
use web_accessible.Orchestrator.Walk.Rules.{table}
use web_accessible.Orchestrator.Walk.Current.{
  Keeps, updated_view-Moves, put-IsCurrent, put_keeps-IsCurrent,
}

module _ (o : Outside) (start : Dict ℕ SessionRow) where
  -- What a handler that may raise leaves: a lawful table, in which the view that `get` reads of its
  -- answer is current.
  pub record Gives {A : Type 0} (get : A → SessionView) (r : Option A × Desk o) : Type 0 where
    pub lawful : IsLawful start (table r)
    pub gives : (a : A) → r.0 ≡ some a → IsCurrent start (get a) (table r)

  written-Gives :
      (d : Desk o) (i : ℕ) (b : Bool) (changes : SessionView → SessionView) (now : ℕ)
      → ((old : SessionRow)
          → lookup i d.store.sessions ≡ some old
          → Moves old.payload (updated_view b changes now old.payload))
      → IsLawful start d.store.sessions
      → Gives (λ v. v) (written o d (update_session i b changes now d.store))
  unfolding update_session
  written-Gives d i b changes now m h = elim (Option-cases (lookup i d.store.sessions)) [
    | inl absent ↦ rw (written, absent) (record { lawful = h; gives = λ a e. absurd cc })
    | inr (old, there) ↦
        let w = updated_view b changes now old.payload in
        let z =
          put-IsCurrent start i old (set_columns old w) d.store.sessions there (m old there) h in
        rw (written, there)
          (record {
            lawful = z.lawful;
            gives = λ a e.
                let same : w ≡ a = cc e in
                subst (λ x. IsCurrent start x (put i (set_columns old w) d.store.sessions)) same z;
          })
  ]

  pub update-Gives :
      (d : Desk o) (i : ℕ) (b : Bool) (changes : SessionView → SessionView)
      → Keeps changes
      → IsLawful start d.store.sessions
      → Gives (λ v. v) (update o i b changes d)
  unfolding update
  update-Gives d i b changes keeps h =
      written-Gives _ i b changes (o.now d.outside).0
        (λ old there. updated_view-Moves b changes (o.now d.outside).0 old.payload keeps) h

  written-IsCurrent :
      (d : Desk o) (i : ℕ) (b : Bool) (changes : SessionView → SessionView) (now : ℕ)
      (v : SessionView)
      → Keeps changes
      → IsCurrent start v d.store.sessions
      → IsCurrent start v (written o d (update_session i b changes now d.store)).1.store.sessions
  unfolding update_session updated_view
  written-IsCurrent d i b changes now v keeps h = elim (Option-cases (lookup i d.store.sessions)) [
    | inl absent ↦ rw (written, absent) h
    | inr (old, there) ↦
        let w = updated_view b changes now old.payload in
        rw (written, there)
          (put_keeps-IsCurrent start i old (set_columns old w) v d.store.sessions there
            (updated_view-Moves b changes now old.payload keeps) (keeps.same_state old.payload) h)
  ]

  pub update-IsCurrent :
      (d : Desk o) (i : ℕ) (b : Bool) (changes : SessionView → SessionView) (v : SessionView)
      → Keeps changes
      → IsCurrent start v d.store.sessions
      → IsCurrent start v (table (update o i b changes d))
  unfolding update
  update-IsCurrent d i b changes v keeps h =
      written-IsCurrent _ i b changes (o.now d.outside).0 v keeps h

  pub transition-Gives :
      (d : Desk o) (v : SessionView) (state : SessionState) (changes : SessionView → SessionView)
      → ((x : SessionView) → (changes x).id ≡ x.id)
      → IsCurrent start v d.store.sessions
      → Gives (λ u. u) (transition o v state changes d)
  unfolding transition update updated_view
  transition-Gives d v state changes same_id h =
      elim (Bool-cases (ensure_transition v.state state)) [
        | inr refused ↦ rw refused (record { lawful = h.lawful; gives = λ a e. absurd cc })
        | inl allowed ↦
            let now = (o.now d.outside).0 in
            rw allowed (
              written-Gives (record d { outside = (o.now d.outside).1 }) v.id true
                (λ x. record (changes x) { state = state }) now
                (λ old there.
                  let before : old.payload.state ≡ v.state =
                    rw (ap payload_of there) at h.current in
                  record {
                    id = same_id old.payload;
                    path = Reach.next state Reach.here (rw before allowed);
                    version = omega arith;
                  })
                h.lawful)
      ]

  pub require-Gives :
      (i : ℕ) (d : Desk o)
      → IsLawful start d.store.sessions
      → Gives (λ v. v) (require_session o i d)
  unfolding require_session get_session
  require-Gives i d h = elim (Option-cases (lookup i d.store.sessions)) [
    | inl absent ↦ rw absent (record { lawful = h; gives = λ a e. absurd cc })
    | inr (row, there) ↦
        let before : held i d.store.sessions ≡ some row.payload = ap payload_of there in
        let named : row.payload.id ≡ i = rw before at (h.keyed i) in
        rw there (record {
          lawful = h;
          gives = λ a e.
              let same : row.payload ≡ a = cc e in
              subst (λ x. IsCurrent start x d.store.sessions) same
                (record { lawful = h; current = rw (named, before) refl });
        })
  ]
