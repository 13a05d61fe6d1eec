-- ===== src/Tests/Runs.antt =====
-- A run of the backend over one watched session, at the theorems on runs
-- (backend/app/services/orchestrator.py).
use web_accessible.Prelude.{
  ◌==◌, nat_eq, codes, text_eq, lookup, ℕ, ◌≡◌, refl, inl, inr, some, List, [], ◌∷◌, nat_beq_iff,
  Bool-cases,
}
use web_accessible.Contracts.State.{SessionState}
use web_accessible.Store.Types.{Store}
use web_accessible.Store.Sessions.{row_of}
use web_accessible.Orchestrator.Desk.{Task}
use web_accessible.Orchestrator.Walk.{Follows, IsKeyed, HasState, held}
use web_accessible.Orchestrator.Walk.Trace.{Call, run_sequence, sessions_follow, ended_stays}
use web_accessible.Tests.Desk.{quiet, settings, desk_with, dismissed}
use web_accessible.Tests.Storage.{session_in, one_row}

one_row-IsKeyed : (j : ℕ) → IsKeyed j (held j one_row.sessions)
unfolding lookup
one_row-IsKeyed j = elim (Bool-cases (7 == j)) [
  | inl h ↦ rw (held, h) ((nat_beq_iff 7 j).0 h)
  | inr h ↦ rw (held, h) tt
]

abbrev three_calls : List Call
three_calls =
    Call.event dismissed
    ∷ Call.task (Task.guide 7 (codes "r"))
    ∷ Call.abandon_session 7 (codes "r")
    ∷ []

sessions_follow_example :
    Follows 7
      (held 7 one_row.sessions)
      (held 7 (run_sequence quiet settings three_calls (desk_with one_row)).store.sessions)
sessions_follow_example =
    sessions_follow quiet settings three_calls (desk_with one_row) 7 one_row-IsKeyed

abbrev ended_row : Store
ended_row = record one_row { sessions = (7, row_of (session_in SessionState.completed)) ∷ [] }

ended_row-IsKeyed : (j : ℕ) → IsKeyed j (held j ended_row.sessions)
unfolding lookup
ended_row-IsKeyed j = elim (Bool-cases (7 == j)) [
  | inl h ↦ rw (held, h) ((nat_beq_iff 7 j).0 h)
  | inr h ↦ rw (held, h) tt
]

ended_is_there : held 7 ended_row.sessions ≡ some (session_in SessionState.completed)
unfolding lookup
ended_is_there = refl

ended_stays_example :
    HasState SessionState.completed
      (held 7 (run_sequence quiet settings three_calls (desk_with ended_row)).store.sessions)
ended_stays_example =
    ended_stays quiet settings three_calls (desk_with ended_row) 7
      (session_in SessionState.completed) ended_row-IsKeyed ended_is_there refl
