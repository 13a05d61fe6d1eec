-- ===== src/Session/Reach.antt =====
-- Which states a session can pass through (backend/app/domain/sessions.py).
use web_accessible.Prelude.{
  nat_eq, contains, text_eq, ◌≡◌, refl, ◌↔◌, ◌⊎◌, inl, inr, Bool, true, false, List, [], ◌∷◌, arith,
}
use web_accessible.Contracts.State.{
  SessionState, SessionState-discrete, state_eq, created, observing, completed, prepared, escalated,
  provider_unavailable, failed, abandoned,
}
use web_accessible.Session.{allowed_transitions, ensure_transition, is_terminal}

-- A session that takes only transitions which `ensure_transition` accepts.
pub data Reach (s : SessionState) : SessionState → Type 0 where
  here : Reach s s
  next :
      {t : SessionState} (u : SessionState) → Reach s t → ensure_transition t u ≡ true → Reach s u

pub Reach-trans : {s t u : SessionState} → Reach s t → Reach t u → Reach s u
Reach-trans p here = p
Reach-trans p (next u r e) = next u (Reach-trans p r) e

terminal_stays : (s t : SessionState) → is_terminal s ≡ true → ensure_transition s t ≡ true → t ≡ s
unfolding ensure_transition
terminal_stays s t h e = ground arith

-- A session in a terminal state is in that state after any sequence of accepted transitions.
pub terminal_absorbing : {s t : SessionState} → is_terminal s ≡ true → Reach s t → t ≡ s
terminal_absorbing h here = refl
terminal_absorbing {s} h (next {t} u r e) =
    let same = terminal_absorbing h r in terminal_stays s u h (rw same at e)

-- The states that a session has entered on its way, the last first.
pub visited : {s t : SessionState} → Reach s t → List SessionState
visited {s} here = s ∷ []
visited (next u r e) = u ∷ visited r

-- Of the two states before the first observation only the provider's failure can recur.
is_unopened : SessionState → Bool
is_unopened created = true
is_unopened provider_unavailable = true
is_unopened failed = true
is_unopened abandoned = true
is_unopened _ = false

unopened_step :
    (s t : SessionState)
    → is_unopened s ≡ true
    → ensure_transition s t ≡ true
    → (t ≡ observing) ⊎ (is_unopened t ≡ true)
unfolding ensure_transition is_unopened
unopened_step s t h e = ground arith

contains_later :
    (a b : SessionState) (l : List SessionState) → contains l a ≡ true → contains (b ∷ l) a ≡ true
contains_later a b l h = ground arith

unopened_or_observed :
    {t : SessionState} (r : Reach created t)
    → (contains (visited r) observing ≡ true) ⊎ (is_unopened t ≡ true)
unfolding visited is_unopened
unopened_or_observed here = inr refl
unopened_or_observed (next {t} u r e) = elim (unopened_or_observed r) [
  | inl seen ↦ inl (contains_later observing u (visited r) seen)
  | inr shut ↦ elim (unopened_step t u shut e) [
    | inl opened ↦ inl (ground (arith, state_eq.same_iff u observing))
    | inr still ↦ inr still
  ]
]

-- A new session that ends completed, prepared or escalated was observing a browser page before.
pub outcome_needs_observing :
    {t : SessionState} (r : Reach created t)
    → (t ≡ completed) ⊎ (t ≡ prepared) ⊎ (t ≡ escalated)
    → contains (visited r) observing ≡ true
unfolding is_unopened
outcome_needs_observing r h = ground (arith, unopened_or_observed r)

-- The terminal states are those that no state may follow, and every other state may fail.
pub terminal_iff :
    (s : SessionState)
    → ((is_terminal s ≡ true) ↔ (allowed_transitions s ≡ []))
      × ((is_terminal s ≡ false) ↔ (contains (allowed_transitions s) failed ≡ true))
unfolding allowed_transitions SessionState-discrete
terminal_iff s = ((λ h. ground arith, λ h. ground arith), (λ h. ground arith, λ h. ground arith))
