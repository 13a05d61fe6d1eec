-- ===== src/Orchestrator/Walk/Rounds.antt =====
-- The handlers that guide a session to its next step keep the table of sessions lawful
-- (backend/app/services/orchestrator.py).
use web_accessible.Prelude.{
  ◌==◌, nat_eq, Text, text_eq, Dict, ℕ, ◌≡◌, refl, Option, none, some, List,
}
use web_accessible.Contracts.State.{SessionState, SessionMode, mode_eq, state_eq, GuidanceMode}
use web_accessible.Contracts.Element.{ElementCandidate, SelectorSpec}
use web_accessible.Contracts.Command.{CommandType, BackendCommand}
use web_accessible.Contracts.Skill.{SkillDocument}
use web_accessible.Skill.Replay.{ReplayResolution}
use web_accessible.Stuck.{StuckReason}
use web_accessible.Store.Types.{SessionView, SessionRow}
use web_accessible.Orchestrator.Desk.{
  Outside, Desk, Config, GuidanceResult, PageIdentity, cond_m, ◌>>=◌,
}
use web_accessible.Orchestrator.Moves.{publish}
use web_accessible.Orchestrator.Guide.{replay_found, replay_guidance, activate, present_step}
use web_accessible.Orchestrator.Begin.{
  act_on, stop_at, apply_guidance_result, begin_replay, begin_cold, begin_guidance, offer_help,
  resume_after_reroute,
}
use web_accessible.Orchestrator.Walk.Rules.{table}
use web_accessible.Orchestrator.Walk.Silent.{
  decide-silent, present_replay-silent, repair_step-silent,
}
use web_accessible.Orchestrator.Walk.Steps.{
  Lawful, Finishing, Keeping, Finding, Giving, silent-Lawful, find-Lawful, then-Lawful,
  found-Lawful, plain-Finishing, rest-Finishing, keeping_rules, ending_rules,
}
use web_accessible.Orchestrator.Walk.Answers.{giving_rules}
use web_accessible.Orchestrator.Walk.Answers.{given-Giving, found-Finding}
use web_accessible.Orchestrator.Walk.Endings.{
  required-Finding, moves, escalate-Giving, load_skill-Keeping,
}
use web_accessible.Orchestrator.Walk.Pairs.{Pairing, cond-Pairing, paired-Giving, pairing_rules}

module _ (o : Outside) (c : Config) (start : Dict ℕ SessionRow) where
  activate-silent :
      (i : ℕ) (k : BackendCommand) (r : GuidanceResult) (m : GuidanceMode)
      (x : Option ElementCandidate) (d : Desk o)
      → table (activate o c i k (record r { candidate = x }) m d) ≡ d.store.sessions
  unfolding activate
  activate-silent i k r m none d = refl
  activate-silent i k r m (some x) d = refl

  activated-Keeping :
      (v : SessionView) (i : ℕ) (k : BackendCommand) (r : GuidanceResult) (m : GuidanceMode)
      → Keeping start v (activate o c i k r m)
  activated-Keeping v i k r m = record {
    kept = λ d h. rw (activate-silent i k r m r.candidate d) h;
  }

  present_step-Giving :
      (v : SessionView) (r : GuidanceResult) → Giving start v (present_step o c v r)
  unfolding present_step
  present_step-Giving v r = search (activated-Keeping, given-Giving, giving_rules, moves) depth 8

  stop_at-Giving :
      (v : SessionView) (r : GuidanceResult) (s : SessionState) (f : SessionView → SessionView)
      → ((x : SessionView) → (f x).id ≡ x.id)
      → Giving start v (stop_at o c v r s f)
  unfolding publish
  stop_at-Giving v r s f h = search (giving_rules, moves) depth 8

  act_on-Giving :
      (v : SessionView) (r : GuidanceResult) (t : Text) (k : CommandType)
      → Giving start v (act_on o c v r t k)
  unfolding act_on
  act_on-Giving v r t CommandType.safety_pause = search (stop_at-Giving)
  act_on-Giving v r t CommandType.provider_unavailable = search (stop_at-Giving)
  act_on-Giving v r t CommandType.escalated = escalate-Giving o c start v t
  act_on-Giving v r t _ = present_step-Giving v r

  apply_result-Giving :
      (v : SessionView) (r : GuidanceResult) (t : Text)
      → Giving start v (apply_guidance_result o c v r t)
  unfolding apply_guidance_result
  apply_result-Giving v r t = search (act_on-Giving, escalate-Giving, giving_rules, moves)

  replay_found-Keeping :
      (v : SessionView) (k : SkillDocument) (r : ReplayResolution) (xs : List ElementCandidate)
      (i : ℕ) (t : Text) (a : Option (ElementCandidate × SelectorSpec))
      → Keeping start v (replay_found o c v k r xs i t a)
  unfolding replay_found
  replay_found-Keeping v k r xs i t none = search (keeping_rules, repair_step-silent)
  replay_found-Keeping v k r xs i t (some (x, s)) =
      search (keeping_rules, repair_step-silent, present_replay-silent) depth 8

  replay_guidance-Keeping :
      (v : SessionView) (xs : List ElementCandidate) (i : ℕ) (t : Text)
      → Keeping start v (replay_guidance o c v xs i t)
  unfolding replay_guidance
  replay_guidance-Keeping v xs i t =
      search (load_skill-Keeping, replay_found-Keeping, keeping_rules, moves) depth 8

  begin_cold-Pairing :
      (v : SessionView) (xs : List ElementCandidate) (p : PageIdentity)
      → Pairing start v (begin_cold o c v xs p)
  unfolding begin_cold
  begin_cold-Pairing v xs p = search (pairing_rules, decide-silent) depth 8

  begin_replay-Pairing :
      (v : SessionView) (xs : List ElementCandidate) (p : PageIdentity)
      → Pairing start v (begin_replay o c v xs p)
  unfolding begin_replay
  begin_replay-Pairing v xs p = search (replay_guidance-Keeping, pairing_rules, moves) depth 10

  begun-Giving :
      (v : SessionView) (t : Text) (xs : List ElementCandidate) (p : PageIdentity)
      → Giving start v (
          cond_m (v.mode == SessionMode.replay) (begin_replay o c v xs p) (begin_cold o c v xs p)
          >>= λ a. apply_guidance_result o c a.0 a.1 t)
  begun-Giving v t xs p =
      search
        (paired-Giving, cond-Pairing, begin_replay-Pairing, begin_cold-Pairing, apply_result-Giving)

  pub begin_guidance-Finding : (i : ℕ) (t : Text) → Finding start (begin_guidance o c i t)
  unfolding begin_guidance
  begin_guidance-Finding i t =
      search (found-Finding, required-Finding, begun-Giving, giving_rules) depth 8

  pub offer_help-Finishing :
      (v : SessionView) (r : StuckReason) → Finishing start v (offer_help o c v r)
  unfolding offer_help
  offer_help-Finishing v r = search (ending_rules, moves) depth 8

  pub resume-Lawful : (i : ℕ) → Lawful start (resume_after_reroute o c i)
  unfolding resume_after_reroute
  resume-Lawful i =
      search
        (
          found-Lawful, required-Finding, rest-Finishing, plain-Finishing, find-Lawful, then-Lawful,
          silent-Lawful, begin_guidance-Finding, ending_rules, moves,
        )
        depth 10 fits 5000
