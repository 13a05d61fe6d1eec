-- ===== src/Orchestrator/Walk/Endings.antt =====
-- The handlers that end a session or write its routine keep the table of sessions lawful
-- (backend/app/services/orchestrator.py).
use web_accessible.Prelude.{
  ◌==◌, nat_eq, Text, text_eq, Dict, ℕ, ◌≡◌, Bool, false, Option, none, some, arith,
}
use web_accessible.Contracts.State.{SessionState, SessionMode, mode_eq, state_eq, GuidanceMode}
use web_accessible.Contracts.Event.{EventEnvelope}
use web_accessible.Contracts.Element.{ElementCandidate, GuidanceDecision}
use web_accessible.Contracts.Skill.{SkillDocument, SkillStep}
use web_accessible.Store.Types.{SessionView, SessionRow, Store}
use web_accessible.Store.Notices.{create_escalation}
use web_accessible.Orchestrator.Desk.{Outside, Config, ActiveStep, ret}
use web_accessible.Orchestrator.Moves.{require_session, update, transition}
use web_accessible.Orchestrator.Outcome.{escalate, save_route, complete, finish_replay}
use web_accessible.Orchestrator.Guide.{load_skill, fetch_skill}
use web_accessible.Orchestrator.Action.{persist_repair, keep_repaired}
use web_accessible.Orchestrator.Confirm.{keep_decided, keep_step}
use web_accessible.Orchestrator.Walk.Rules.{table, silent_rules, silent-need}
use web_accessible.Orchestrator.Walk.Silent.{
  enqueue-sessions, record_step-sessions, remember-sessions, send-silent, finish_run-silent,
  step_telemetry-silent, trusted_browser_action-silent, selector_verification-silent,
  record_outcome-silent, sync_summary-silent, close-silent, decide-silent, present_replay-silent,
  repair_step-silent, record_route-silent,
}
use web_accessible.Orchestrator.Walk.Current.{Keeps}
use web_accessible.Orchestrator.Walk.Writes.{
  update-Gives, update-IsCurrent, transition-Gives, require-Gives,
}
use web_accessible.Orchestrator.Walk.Steps.{
  Finishing, Keeping, Finding, Giving, keeping_rules, ending_rules,
}
use web_accessible.Orchestrator.Walk.Answers.{giving_rules}
use web_accessible.Orchestrator.Walk.Answers.{ret-Giving, found-Giving}

create_escalation-sessions :
    (fresh i : ℕ) (user reason : Text) (now : ℕ) (s : Store)
    → (create_escalation fresh i user reason now s).1.sessions ≡ s.sessions
unfolding create_escalation
create_escalation-sessions fresh i user reason now s = ground arith

-- An update that writes only fields beside the identifier, the state and the version.
pub keeps :
    (changes : SessionView → SessionView)
    → ((v : SessionView)
        → ((changes v).id ≡ v.id)
          × ((changes v).state ≡ v.state)
          × ((changes v).state_version ≡ v.state_version))
    → Keeps changes
keeps changes h = record {
  same_id = λ v. (h v).0;
  same_state = λ v. (h v).1;
  same_version = λ v. (h v).2;
}

module _ {o : Outside} {start : Dict ℕ SessionRow} where
  pub moved-Giving :
      (v : SessionView) (state : SessionState) (changes : SessionView → SessionView)
      → ((x : SessionView) → (changes x).id ≡ x.id)
      → Giving start v (transition o v state changes)
  moved-Giving v state changes same = record {
    kept = λ d h. transition-Gives o start d v state changes same h;
  }

  pub updated-Finding :
      (i : ℕ) (b : Bool) (changes : SessionView → SessionView)
      → ((v : SessionView)
          → ((changes v).id ≡ v.id)
            × ((changes v).state ≡ v.state)
            × ((changes v).state_version ≡ v.state_version))
      → Finding start (update o i b changes)
  updated-Finding i b changes h = record {
    kept = λ d k. update-Gives o start d i b changes (keeps changes h) k;
  }

  pub updated-Keeping :
      (i : ℕ) (b : Bool) (changes : SessionView → SessionView) {v : SessionView}
      → ((v : SessionView)
          → ((changes v).id ≡ v.id)
            × ((changes v).state ≡ v.state)
            × ((changes v).state_version ≡ v.state_version))
      → Keeping start v (update o i b changes)
  updated-Keeping i b changes h = record {
    kept = λ d k. update-IsCurrent o start d i b changes _ (keeps changes h) k;
  }

  pub required-Finding : (i : ℕ) → Finding start (require_session o i)
  required-Finding i = record { kept = λ d k. require-Gives o start i d k }

pub ruleset moves =
    (moved-Giving, updated-Keeping, send-silent, close-silent, silent-need, record_route-silent)

module _ (o : Outside) (c : Config) (start : Dict ℕ SessionRow) where
  pub escalate-Giving : (v : SessionView) (reason : Text) → Giving start v (escalate o c v reason)
  unfolding escalate
  escalate-Giving v reason = search (giving_rules, moves, create_escalation-sessions) depth 10

  save_route-Keeping : (v w : SessionView) → Keeping start v (save_route o c w)
  unfolding save_route
  save_route-Keeping v w = search (keeping_rules, moves) depth 12

  pub complete-Finishing : (v : SessionView) → Finishing start v (complete o c v)
  unfolding complete
  complete-Finishing v = search (save_route-Keeping, ending_rules, moves) depth 10

  pub finish_replay-Finishing :
      (v : SessionView) (k : SkillDocument) (n : ℕ) → Finishing start v (finish_replay o c v k n)
  unfolding finish_replay
  finish_replay-Finishing v k n = search (ending_rules, moves) depth 10

  fetch_skill-Keeping : (v w : SessionView) → Keeping start v (fetch_skill o c w)
  fetch_skill-Keeping v w = search (keeping_rules, moves) depth 12

  cached-Keeping :
      (v w : SessionView) (k : Option SkillDocument)
      → Keeping {o = o} start v (elim k [ none ↦ fetch_skill o c w | some x ↦ ret x ])
  cached-Keeping v w none = fetch_skill-Keeping v w
  cached-Keeping v w (some k) = search (keeping_rules)

  pub load_skill-Keeping : (v w : SessionView) → Keeping start v (load_skill o c w)
  unfolding load_skill
  load_skill-Keeping v w = search (keeping_rules, cached-Keeping)

  keep_repaired-Giving :
      (v : SessionView) (x : SkillStep) (t : Text) (k : SkillDocument)
      (s : SkillDocument × Text × Bool × Text)
      → Giving start v (keep_repaired o c v x t k s)
  unfolding keep_repaired
  keep_repaired-Giving v x t k (s, n, b, i) =
      search (found-Giving, updated-Finding, giving_rules, moves) depth 10

  pub persist_repair-Giving :
      (v : SessionView) (x : SkillStep) (t : Text) → Giving start v (persist_repair o c v x t)
  unfolding persist_repair
  persist_repair-Giving v x t =
      search (load_skill-Keeping, keep_repaired-Giving, giving_rules, moves) depth 10

  keep_decided-Giving :
      (v : SessionView) (x : ElementCandidate) (e : EventEnvelope) (b : Bool)
      (a : Option GuidanceDecision)
      → Giving start v (keep_decided o c v x e b a)
  keep_decided-Giving v x e b none = search (giving_rules)
  keep_decided-Giving v x e b (some a) = search (persist_repair-Giving, giving_rules, moves)

  keep_mode-Giving :
      (v : SessionView) (a : ActiveStep) (x : ElementCandidate) (e : EventEnvelope)
      (m : GuidanceMode)
      → Giving start v (keep_step o c v (record a { mode = m }) x e)
  unfolding keep_step
  keep_mode-Giving v a x e GuidanceMode.cold = keep_decided-Giving v x e false a.decision
  keep_mode-Giving v a x e GuidanceMode.repair =
      keep_decided-Giving v x e (v.mode == SessionMode.replay) a.decision
  keep_mode-Giving v a x e GuidanceMode.none = ret-Giving
  keep_mode-Giving v a x e GuidanceMode.replay = ret-Giving

  pub keep_step-Giving :
      (v : SessionView) (a : ActiveStep) (x : ElementCandidate) (e : EventEnvelope)
      → Giving start v (keep_step o c v a x e)
  keep_step-Giving v a x e = keep_mode-Giving v a x e a.mode
