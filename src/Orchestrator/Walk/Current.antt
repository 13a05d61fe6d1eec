-- ===== src/Orchestrator/Walk/Current.antt =====
-- Writing a session: what `update` and `transition` do to the table, and what a handler may rely on
-- after them (backend/app/services/orchestrator.py).
use web_accessible.Prelude.{
  none, ◌==◌, nat_eq, text_eq, Dict, lookup-put, lookup, put, ℕ, ◌≡◌, refl, sym, ap, ◌∙◌, inl, inr,
  Bool, true, some, arith, if◌then◌else◌, nat_beq_iff, Bool-cases,
}
use web_accessible.Contracts.State.{none, SessionState}
use web_accessible.Session.Reach.{Reach}
use web_accessible.Store.Types.{SessionView, SessionRow}
use web_accessible.Store.Sessions.{row_of, updated_view}
use web_accessible.Orchestrator.Walk.{Moves, Follows-trans, payload_of, held, IsLawful, IsCurrent}

pub held-put :
    (i k : ℕ) (row : SessionRow) (t : Dict ℕ SessionRow)
    → held k (put i row t) ≡ (if i == k then some row.payload else held k t)
held-put i k row t = elim (Bool-cases (i == k)) [
  | inl h ↦ rw (held, lookup-put i k row t, h) refl
  | inr h ↦ rw (held, lookup-put i k row t, h) refl
]

-- What an update may do to a session: it keeps it in its state, and its version.
pub record Keeps (changes : SessionView → SessionView) : Type 0 where
  pub same_id : (v : SessionView) → (changes v).id ≡ v.id
  pub same_state : (v : SessionView) → (changes v).state ≡ v.state
  pub same_version : (v : SessionView) → (changes v).state_version ≡ v.state_version

pub updated_view-Moves :
    (b : Bool) (changes : SessionView → SessionView) (now : ℕ) (v : SessionView)
    → Keeps changes
    → Moves v (updated_view b changes now v)
unfolding updated_view
updated_view-Moves b changes now v keeps = record {
  id = keeps.same_id v;
  path = rw (keeps.same_state v) Reach.here;
  version = ground (arith, keeps.same_version v);
}

module _ (start : Dict ℕ SessionRow) where
  -- A row that replaces the one under its key by a move of its session.
  pub put-IsLawful :
      (i : ℕ) (old row : SessionRow) (t : Dict ℕ SessionRow)
      → lookup i t ≡ some old
      → Moves old.payload row.payload
      → IsLawful start t
      → IsLawful start (put i row t)
  put-IsLawful i old row t there m h =
      let before : held i t ≡ some old.payload = ap payload_of there in
      let named : old.payload.id ≡ i = rw before at (h.keyed i) in
      record {
        keyed = λ k. elim (Bool-cases (i == k)) [
          | inl e ↦ rw (held-put i k row t, e) (m.id ∙ named ∙ (nat_beq_iff i k).0 e)
          | inr e ↦ rw (held-put i k row t, e) (h.keyed k)
        ];
        follows = λ k. elim (Bool-cases (i == k)) [
          | inl e ↦
              let here : held k t ≡ some old.payload =
                ap (λ j. held j t) (sym ((nat_beq_iff i k).0 e)) ∙ before in
              rw (held-put i k row t, e)
                (Follows-trans k (held k start) (some old.payload) (some row.payload)
                  (rw here at (h.follows k)) m)
          | inr e ↦ rw (held-put i k row t, e) (h.follows k)
        ];
      }

  -- A session that was not there begins as a created one.
  pub put_new-IsLawful :
      (v : SessionView) (t : Dict ℕ SessionRow)
      → lookup v.id t ≡ none
      → v.state ≡ SessionState.created
      → IsLawful start t
      → IsLawful start (put v.id (row_of v) t)
  put_new-IsLawful v t absent new h = record {
    keyed = λ k. elim (Bool-cases (v.id == k)) [
      | inl e ↦ rw (held-put v.id k (row_of v) t, e) ((nat_beq_iff v.id k).0 e)
      | inr e ↦ rw (held-put v.id k (row_of v) t, e) (h.keyed k)
    ];
    follows = λ k. elim (Bool-cases (v.id == k)) [
      | inl e ↦
          let same : v.id ≡ k = (nat_beq_iff v.id k).0 e in
          let before : held k t ≡ none = ap (λ j. held j t) (sym same) ∙ ap payload_of absent in
          rw (held-put v.id k (row_of v) t, e)
            (Follows-trans k (held k start) none (some v) (rw before at (h.follows k))
              (same, rw new Reach.here))
      | inr e ↦ rw (held-put v.id k (row_of v) t, e) (h.follows k)
    ];
  }

  -- The written view is current.
  pub put-IsCurrent :
      (i : ℕ) (old row : SessionRow) (t : Dict ℕ SessionRow)
      → lookup i t ≡ some old
      → Moves old.payload row.payload
      → IsLawful start t
      → IsCurrent start row.payload (put i row t)
  put-IsCurrent i old row t there m h =
      let before : held i t ≡ some old.payload = ap payload_of there in
      let named : old.payload.id ≡ i = rw before at (h.keyed i) in
      let same : i == row.payload.id ≡ true =
        (nat_beq_iff i row.payload.id).1 (sym (m.id ∙ named)) in
      record {
        lawful = put-IsLawful i old row t there m h;
        current = rw (held-put i row.payload.id row t, same) refl;
      }

  -- A view at hand stays current where a session is written in its state.
  pub put_keeps-IsCurrent :
      (i : ℕ) (old row : SessionRow) (v : SessionView) (t : Dict ℕ SessionRow)
      → lookup i t ≡ some old
      → Moves old.payload row.payload
      → row.payload.state ≡ old.payload.state
      → IsCurrent start v t
      → IsCurrent start v (put i row t)
  put_keeps-IsCurrent i old row v t there m same h = record {
    lawful = put-IsLawful i old row t there m h.lawful;
    current = elim (Bool-cases (i == v.id)) [
      | inl e ↦
          let here : held v.id t ≡ some old.payload =
            ap (λ j. held j t) (sym ((nat_beq_iff i v.id).0 e)) ∙ ap payload_of there in
          rw (held-put i v.id row t, e) (same ∙ (rw here at h.current))
      | inr e ↦ rw (held-put i v.id row t, e) h.current
    ];
  }
