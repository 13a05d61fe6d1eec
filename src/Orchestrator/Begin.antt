-- ===== src/Orchestrator/Begin.antt =====
-- A round of guidance from its start to the state that it leaves the session in
-- (backend/app/services/orchestrator.py).
use web_accessible.Prelude.{
  ◌==◌, nat_eq, Text, codes, text_eq, ℕ, ◌+◌, Bool, true, false, not, ◌&&◌, none, some, List, [],
  ◌∷◌,
}
use web_accessible.Contracts.State.{
  SessionState, SessionState-discrete, state_eq, SessionMode, SessionMode-discrete, mode_eq,
  GuidanceMode,
}
use web_accessible.Contracts.Element.{ElementCandidate}
use web_accessible.Contracts.Command.{CommandType}
use web_accessible.Safety.{origin}
use web_accessible.Stuck.{StuckReason}
use web_accessible.Store.Types.{SessionView}
use web_accessible.Orchestrator.Desk.{
  Outside, M, Config, GuidanceResult, PageIdentity, ◌>>=◌, ◌>>◌, ret, done, ask, call, attempt,
  cond_m,
}
use web_accessible.Orchestrator.Moves.{require_session, transition, publish, set_command}
use web_accessible.Orchestrator.Decide.{decide}
use web_accessible.Orchestrator.Outcome.{escalate, command_of}
use web_accessible.Orchestrator.Guide.{
  is_over, page_changed, next_attempt, replay_guidance, present_step,
}

module _ (o : Outside) (c : Config) where
  abbrev pub stop_at :
      SessionView → GuidanceResult → SessionState → (SessionView → SessionView) → M o SessionView
  stop_at session result state changes = do
    updated ← transition o session state changes
    publish o updated (some result.command) none
    ret updated

  -- The branches of `_apply_guidance_result` on the command.
  unfoldable pub act_on : SessionView → GuidanceResult → Text → CommandType → M o SessionView
  unfolding transition publish escalate present_step
  act_on session result reason CommandType.safety_pause =
      stop_at session result SessionState.safety_paused (λ v. record v {
        current_instruction = result.command.instruction;
        safety_message = result.command.instruction;
        guidance_mode = GuidanceMode.none;
      })
  act_on session result reason CommandType.provider_unavailable =
      stop_at session result SessionState.provider_unavailable (λ v. record v {
        current_instruction = result.command.instruction;
        guidance_mode = GuidanceMode.none;
      })
  act_on session result reason CommandType.escalated = escalate o c session reason
  act_on session result reason _ = present_step o c session result

  -- `_apply_guidance_result`
  unfoldable pub apply_guidance_result : SessionView → GuidanceResult → Text → M o SessionView
  unfolding set_command escalate act_on
  apply_guidance_result session result reason = do
    set_command o session.id result.command
    cond_m result.should_escalate (escalate o c session reason)
        (act_on session result reason result.command.command_type)

  abbrev with_page : ℕ → GuidanceResult → GuidanceResult
  with_page page r = record r {
    command = record r.command {
      page_instance_id = elim r.command.page_instance_id [ none ↦ some page | some p ↦ some p ];
    };
  }

  abbrev is_decided : GuidanceResult → Bool
  is_decided r = elim r.decision [ none ↦ false | some x ↦ true ]

  -- The replay branch of `begin_guidance`: the result, and the session as it is then.
  unfoldable pub begin_replay :
      SessionView → List ElementCandidate → PageIdentity → M o (SessionView × GuidanceResult)
  unfolding replay_guidance transition publish SessionState-discrete
  begin_replay session candidates page = do
    result ← attempt (replay_guidance o c session candidates page.page_instance_id page.origin) (
        ask o.fresh >>= λ fresh. ret (record {
          command =
              record (command_of o c fresh session CommandType.provider_unavailable
                (some (codes "Your saved routine is not available right now."))) {
                  server_state_version = session.state_version + 1;
                };
          decision = none;
          candidate = none;
          blocked = true;
          should_escalate = false;
          unavailable_code = some (codes "everos_skill_unavailable");
        }))
    cond_m (is_decided result && not (session.state == SessionState.repairing))
        (do
          repairing ← transition o session SessionState.repairing (λ v. record v {
            repair_attempts = next_attempt session.repair_attempts;
            current_instruction = some page_changed;
            guidance_mode = GuidanceMode.repair;
          })
          publish o repairing none none
          ret (repairing, result))
        (ret (session, result))

  -- The other branch.
  unfoldable pub begin_cold :
      SessionView → List ElementCandidate → PageIdentity → M o (SessionView × GuidanceResult)
  unfolding decide origin
  begin_cold session candidates page = do
    result ←
        decide o c session candidates (origin c.demo_target_url ∷ origin c.demo_fallback_url ∷ [])
          page.origin GuidanceMode.cold
    ret (session, with_page page.page_instance_id result)

  -- `begin_guidance`
  unfoldable pub begin_guidance : ℕ → Text → M o SessionView
  unfolding require_session is_over begin_replay begin_cold apply_guidance_result
      SessionMode-discrete
  begin_guidance session_id reason = do
    session ← require_session o session_id
    cond_m (is_over session.state) (ret session) (do
      candidates ← call (o.snapshot session_id)
      page ← call (o.page_identity session_id)
      begun ←
          cond_m (session.mode == SessionMode.replay) (begin_replay session candidates page)
            (begin_cold session candidates page)
      apply_guidance_result begun.0 begun.1 reason)

  -- `_offer_help`
  unfoldable pub offer_help : SessionView → StuckReason → M o (Unit {0})
  unfolding transition set_command publish
  offer_help session reason = do
    let question = some (codes "Would you like help with the next step?")
    updated ←
        transition o session SessionState.help_offered
          (λ v. record v { current_instruction = question })
    fresh ← ask o.fresh
    let command = command_of o c fresh updated CommandType.offer_help question
    set_command o session.id command
    publish o updated (some command) (some reason)

  -- `_resume_after_reroute`, after its pause.
  unfoldable pub resume_after_reroute : ℕ → M o (Unit {0})
  unfolding require_session transition publish begin_guidance SessionState-discrete
  resume_after_reroute session_id = do
    session ← require_session o session_id
    cond_m (session.state == SessionState.rerouting)
        (do
          observing ←
              transition o session SessionState.observing
                (λ v. record v { current_instruction = none })
          publish o observing none none
          guided ← begin_guidance session_id (codes "wrong_click")
          done)
        done
