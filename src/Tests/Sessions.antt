-- ===== src/Tests/Sessions.antt =====
-- Sessions that open, are guided and finish (backend/app/domain/sessions.py).
use web_accessible.Prelude.{nat_eq, contains, text_eq, ◌≡◌, refl, ◌↔◌, inl, true, false, []}
use web_accessible.Contracts.State.{SessionState, state_eq, created, observing, completed}
use web_accessible.Session.{allowed_transitions, ensure_transition, is_terminal}
use web_accessible.Session.Reach.{Reach, here, next, visited, outcome_needs_observing, terminal_iff}

abbrev to_completed : Reach created completed
unfolding ensure_transition
to_completed = next completed (next observing here refl) refl

outcome_needs_observing_example : contains (visited to_completed) observing ≡ true
unfolding ensure_transition
outcome_needs_observing_example = outcome_needs_observing to_completed (inl refl)

terminal_iff_example :
    ((is_terminal observing ≡ true) ↔ (allowed_transitions observing ≡ []))
    × ((is_terminal observing ≡ false)
        ↔ (contains (allowed_transitions observing) SessionState.failed ≡ true))
terminal_iff_example = terminal_iff observing
