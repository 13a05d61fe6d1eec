-- ===== src/Session.antt =====
-- The life of a task session as a transition table (backend/app/domain/sessions.py).
pub mod Reach
use web_accessible.Prelude.{
  ◌≡◌, refl, Bool, true, false, List, [], ◌∷◌, contains, ◌==◌, if◌then◌else◌, Option, none, some,
}
use web_accessible.Contracts.State.{
  SessionState, SessionState-discrete, state_eq, created, observing, help_offered, guiding,
  awaiting_user_action, verifying, rerouting, repairing, safety_paused, completed, prepared,
  escalated, abandoned, failed, provider_unavailable,
}

-- `ALLOWED_TRANSITIONS`: the states that may follow each state.
pub allowed_transitions : SessionState → List SessionState
allowed_transitions created = observing ∷ provider_unavailable ∷ failed ∷ []
allowed_transitions observing =
    help_offered ∷ guiding ∷ repairing ∷ safety_paused ∷ completed ∷ prepared ∷ escalated
    ∷ abandoned ∷ failed ∷ provider_unavailable ∷ []
allowed_transitions help_offered =
    observing ∷ guiding ∷ safety_paused ∷ abandoned ∷ failed ∷ provider_unavailable ∷ []
allowed_transitions guiding =
    awaiting_user_action ∷ safety_paused ∷ escalated ∷ failed ∷ provider_unavailable ∷ []
allowed_transitions awaiting_user_action =
    verifying ∷ rerouting ∷ safety_paused ∷ abandoned ∷ escalated ∷ failed ∷ provider_unavailable
    ∷ []
allowed_transitions verifying =
    guiding ∷ observing ∷ rerouting ∷ repairing ∷ safety_paused ∷ completed ∷ prepared ∷ escalated
    ∷ failed ∷ []
allowed_transitions rerouting =
    guiding ∷ repairing ∷ safety_paused ∷ escalated ∷ failed ∷ provider_unavailable ∷ []
allowed_transitions repairing =
    guiding ∷ safety_paused ∷ escalated ∷ failed ∷ provider_unavailable ∷ []
allowed_transitions safety_paused =
    observing ∷ verifying ∷ escalated ∷ prepared ∷ abandoned ∷ failed ∷ []
allowed_transitions provider_unavailable = observing ∷ abandoned ∷ failed ∷ []
allowed_transitions completed = []
allowed_transitions prepared = []
allowed_transitions escalated = []
allowed_transitions abandoned = []
allowed_transitions failed = []

-- `ensure_transition`: `false` stands for `InvalidStateTransition`.
unfoldable pub ensure_transition : SessionState → SessionState → Bool
unfolding allowed_transitions SessionState-discrete
ensure_transition current target =
    if target == current then true else contains (allowed_transitions current) target

-- `TERMINAL_STATES`
abbrev pub is_terminal : SessionState → Bool
is_terminal completed = true
is_terminal prepared = true
is_terminal escalated = true
is_terminal abandoned = true
is_terminal failed = true
is_terminal _ = false
