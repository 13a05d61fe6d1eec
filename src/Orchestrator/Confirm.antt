-- ===== src/Orchestrator/Confirm.antt =====
-- What a trusted action on a step that waits for it does to the session
-- (backend/app/services/orchestrator.py).
use web_accessible.Prelude.{
  length, ◌+◌, lookup, not, ◌&&◌, ◌==◌, nat_eq, Text, codes, text_eq, ℕ, Bool, false, ◌||◌, Option,
  none, some, leb,
}
use web_accessible.Contracts.State.{
  SessionState-discrete, SessionState, state_eq, SessionMode, SessionMode-discrete, mode_eq,
  GuidanceMode,
}
use web_accessible.Contracts.Event.{EventEnvelope}
use web_accessible.Contracts.Element.{ElementCandidate, GuidanceDecision, VerificationPredicate}
use web_accessible.Store.Types.{SessionView}
use web_accessible.Orchestrator.Desk.{
  raise, reads, Outside, M, Config, ActiveStep, Task, ◌>>=◌, ◌>>◌, ret, done, call, cond_m,
}
use web_accessible.Orchestrator.Moves.{drop_active, transition, publish, spawn}
use web_accessible.Orchestrator.Telemetry.{enqueue_selector_verification}
use web_accessible.Orchestrator.Outcome.{finish_replay, complete, escalate}
use web_accessible.Orchestrator.Guide.{load_skill, page_changed, next_attempt}
use web_accessible.Orchestrator.Action.{
  completed, record_route, record_silent_action, persist_repair,
}

module _ (o : Outside) (c : Config) where
  -- The action was not the one that was asked for.
  unfoldable pub reroute : SessionView → Text → M o (Unit {0})
  unfolding transition publish
  reroute session message = do
    rerouting ←
        transition o session SessionState.rerouting
          (λ v. record v { current_instruction = some message })
    publish o rerouting none none

  -- The step did not verify.
  unfoldable pub not_verified : SessionView → M o (Unit {0})
  unfolding transition publish escalate spawn reroute SessionMode-discrete
  not_verified verifying =
      cond_m (verifying.mode == SessionMode.replay)
        (do
          repairing ← transition o verifying SessionState.repairing (λ v. record v {
            repair_attempts = next_attempt verifying.repair_attempts;
            current_instruction = some page_changed;
            guidance_mode = GuidanceMode.repair;
          })
          publish o repairing none none
          cond_m (leb 2 repairing.repair_attempts)
              (escalate o c repairing (codes "two_failed_attempts") >>= λ v. done)
              (spawn o (Task.guide verifying.id (codes "verification_failed"))))
        (do
          reroute verifying (
              codes "That's alright - the page did not change as expected, so let's try from here.")
          spawn o (Task.resume verifying.id))

  abbrev pub keep_decided :
      SessionView
      → ElementCandidate
      → EventEnvelope
      → Bool
      → Option GuidanceDecision
      → M o SessionView
  keep_decided verifying candidate event repairs none = ret verifying
  keep_decided verifying candidate event repairs (some decision) = do
    step ←
        record_route o c verifying.id candidate decision.instruction event.payload.css_path
          decision.expected_transition
    cond_m repairs (persist_repair o c verifying step (codes "selector_or_transition_changed"))
        (ret verifying)

  -- The route of a verified step is kept, and a repaired routine revised.
  unfoldable pub keep_step :
      SessionView → ActiveStep → ElementCandidate → EventEnvelope → M o SessionView
  unfolding record_route persist_repair SessionMode-discrete
  keep_step verifying active candidate event = elim active.mode [
    | GuidanceMode.cold ↦ keep_decided verifying candidate event false active.decision
    | GuidanceMode.repair ↦
        keep_decided verifying candidate event (verifying.mode == SessionMode.replay)
          active.decision
    | _ ↦ ret verifying
  ]

  -- The step verified: the next step, or the end of the task.
  unfoldable pub advance : SessionView → M o (Unit {0})
  unfolding transition publish spawn drop_active
  advance verifying = do
    observing ← transition o verifying SessionState.observing (λ v. record v {
      current_instruction = none;
      current_step_index = verifying.current_step_index + 1;
    })
    drop_active o verifying.id
    publish o observing none none
    spawn o (Task.guide verifying.id (codes "step_verified"))

  unfoldable pub after_verified : SessionView → M o (Unit {0})
  unfolding load_skill finish_replay completed complete advance SessionMode-discrete
  after_verified verifying =
      cond_m (verifying.mode == SessionMode.replay)
        (do
          skill ← load_skill o c verifying
          cond_m (leb (length skill.steps) (verifying.current_step_index + 1))
              (finish_replay o c verifying skill (verifying.current_step_index + 1))
              (advance verifying))
        (do
          finished ← completed o c verifying.id
          cond_m finished (complete o c verifying) (advance verifying))

  -- `bool(predicate and await self.browser.verify(…))`
  abbrev pub check : ℕ → Option VerificationPredicate → M o Bool
  check session_id none = ret false
  check session_id (some p) = call (o.verify session_id p)

  -- The action on the element that was asked for.
  unfoldable pub confirm :
      SessionView → ActiveStep → ElementCandidate → EventEnvelope → M o (Unit {0})
  unfolding transition publish enqueue_selector_verification not_verified keep_step after_verified
  confirm session active candidate event = do
    verifying ←
        transition o session SessionState.verifying
          (λ v. record v { current_instruction = some (codes "Checking that step now.") })
    publish o verifying none none
    cleared ← call (o.clear_highlight session.id)
    verified ← check session.id active.command.expected_transition
    enqueue_selector_verification o c session event verified
    cond_m verified (do kept ← keep_step verifying active candidate event; after_verified kept)
        (not_verified verifying)

  -- `_handle_user_action` on a step that waits for an action.
  unfoldable pub on_active :
      SessionView → ActiveStep → ElementCandidate → EventEnvelope → M o (Unit {0})
  unfolding enqueue_selector_verification reroute spawn confirm SessionState-discrete
  on_active session active candidate event =
      cond_m (not (session.state == SessionState.awaiting_user_action)) done (
        cond_m (not (candidate.candidate_id == active.candidate.candidate_id))
          (do
            enqueue_selector_verification o c session event false
            reroute session (codes "That's alright - let's find the next step from here.")
            cleared ← call (o.clear_highlight session.id)
            spawn o (Task.resume session.id))
          (confirm session active candidate event))

  abbrev pub is_watched : SessionView → Bool
  is_watched v =
      (v.mode == SessionMode.caregiver_record || v.mode == SessionMode.observe)
      && v.state == SessionState.observing

  abbrev pub on_candidate : SessionView → ElementCandidate → EventEnvelope → M o (Unit {0})
  on_candidate session candidate event =
      cond_m (is_watched session) (record_silent_action o c session candidate event) (do
        active ← reads (λ d. lookup session.id d.active)
        elim active [ none ↦ done | some step ↦ on_active session step candidate event ])

  -- No `candidate` that is a dict, a dict that is no element, or an element.
  abbrev pub on_payload :
      SessionView → EventEnvelope → Option (Option ElementCandidate) → M o (Unit {0})
  on_payload session event none = done
  on_payload session event (some none) = raise
  on_payload session event (some (some candidate)) = on_candidate session candidate event

  -- `_handle_user_action`
  unfoldable pub handle_user_action : SessionView → EventEnvelope → M o (Unit {0})
  unfolding record_silent_action on_active SessionMode-discrete SessionState-discrete
  handle_user_action session event = on_payload session event event.payload.candidate
