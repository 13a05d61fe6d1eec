-- ===== src/Orchestrator/Moves.antt =====
-- How the orchestrator reads and moves a session (backend/app/services/orchestrator.py).
use web_accessible.Prelude.{
  refl, false, ◌≡◌, nat_eq, text_eq, put, remove, ℕ, Bool, true, Option, none, some, [], ◌∷◌, ◌++◌,
}
use web_accessible.Contracts.State.{SessionState}
use web_accessible.Contracts.Command.{BackendCommand}
use web_accessible.Session.{ensure_transition}
use web_accessible.Stuck.{StuckReason}
use web_accessible.Store.Types.{SessionView, Store}
use web_accessible.Store.Sessions.{get_session, update_session}
use web_accessible.Orchestrator.Desk.{
  Outside, Desk, M, Task, ◌>>=◌, raise, need, reads, ask, cond_m,
}

module _ (o : Outside) where
  -- `_require_session`; the exception is `KeyError`.
  unfoldable pub require_session : ℕ → M o SessionView
  unfolding get_session
  require_session session_id = reads (λ d. get_session session_id d.store) >>= need

  abbrev pub written : Desk o → Option (SessionView × Store) → Option SessionView × Desk o
  written d none = (none, d)
  written d (some (v, s)) = (some v, record d { store = s })

  -- `self.repository.update_session(…)`
  unfoldable pub update : ℕ → Bool → (SessionView → SessionView) → M o SessionView
  unfolding update_session
  update session_id increment changes = do
    now ← ask o.now
    λ d. written d (update_session session_id increment changes now d.store)

  -- `_transition`; the exception is `InvalidStateTransition` or `KeyError`.
  unfoldable pub transition :
      SessionView → SessionState → (SessionView → SessionView) → M o SessionView
  unfolding update
  transition session state changes =
      cond_m (ensure_transition session.state state)
        (update session.id true (λ v. record (changes v) { state = state })) raise

  -- `_publish`
  unfoldable pub publish : SessionView → Option BackendCommand → Option StuckReason → M o (Unit {0})
  publish session command reason d = (
    some tt,
    record d {
      notices =
          d.notices ++ record { session = session; command = command; stuck_reason = reason } ∷ [];
    },
  )

  -- `asyncio.create_task`
  unfoldable pub spawn : Task → M o (Unit {0})
  spawn task d = (some tt, record d { tasks = d.tasks ++ task ∷ [] })

  -- `self._commands[session.id] = command`
  unfoldable pub set_command : ℕ → BackendCommand → M o (Unit {0})
  set_command session_id command d =
      (some tt, record d { commands = put session_id command d.commands })

  -- `self._active.pop(session.id, None)`
  unfoldable pub drop_active : ℕ → M o (Unit {0})
  drop_active session_id d = (some tt, record d { active = remove session_id d.active })

  -- A transition that the table does not have raises and changes nothing.
  pub transition_refused :
      (session : SessionView) (state : SessionState) (changes : SessionView → SessionView)
      (d : Desk o)
      → ensure_transition session.state state ≡ false
      → transition session state changes d ≡ (none, d)
  unfolding transition
  transition_refused session state changes d h = rw h refl
