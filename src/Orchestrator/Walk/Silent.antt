-- ===== src/Orchestrator/Walk/Silent.antt =====
-- The handlers that leave the table of sessions as it is (backend/app/services/orchestrator.py).
use web_accessible.Prelude.{
  nat_eq, Text, text_eq, ℕ, ◌≡◌, refl, Bool, true, false, Option, none, some, List, arith,
  if◌then◌else◌,
}
use web_accessible.Contracts.State.{GuidanceMode}
use web_accessible.Contracts.Json.{Payload}
use web_accessible.Contracts.Event.{EventEnvelope}
use web_accessible.Contracts.Element.{
  ElementCandidate, SelectorSpec, VerificationPredicate, GuidanceDecision, SafetyPresentation,
}
use web_accessible.Contracts.Command.{CommandType}
use web_accessible.Contracts.Skill.{SkillDocument, SkillStep}
use web_accessible.Safety.{SafetyResult}
use web_accessible.Skill.Replay.{ReplayResolution}
use web_accessible.Store.Types.{SessionView, Store, ActivityRow}
use web_accessible.Store.Outbox.{enqueue, save_model_call}
use web_accessible.Store.Activity.{record_activity, mark_session_activity_synced}
use web_accessible.Store.Ledger.{record_step}
use web_accessible.Orchestrator.Desk.{Outside, Desk, Config, Receipt, Usage, ModelCost}
use web_accessible.Orchestrator.Memory.{remember, record_outcome, sync_session_summary}
use web_accessible.Orchestrator.Telemetry.{
  send, finish_run, enqueue_step_telemetry, enqueue_trusted_browser_action, trusted_action,
  enqueue_selector_verification, verification,
}
use web_accessible.Orchestrator.Planner.{
  sharpen_pause, pause, send_cost, record_call, highlight_step, pause_step, judge,
}
use web_accessible.Orchestrator.Decide.{
  unavailable, apologize, examine, asked, follow, decide, no_usage,
}
use web_accessible.Orchestrator.Outcome.{close}
use web_accessible.Orchestrator.Guide.{present_replay, repair_step}
use web_accessible.Orchestrator.Action.{record_route}
use web_accessible.Orchestrator.Walk.Rules.{table, silent_rules}

pub enqueue-sessions :
    (fresh : ℕ) (kind key : Text) (p : Payload) (now : ℕ) (s : Store)
    → (enqueue fresh kind key p now s).sessions ≡ s.sessions
unfolding enqueue
enqueue-sessions fresh kind key p now s = ground arith

mark-sessions :
    (i : ℕ) (b : Bool) (s : Store) → (mark_session_activity_synced i b s).sessions ≡ s.sessions
unfolding mark_session_activity_synced
mark-sessions i b s = refl

save_model_call-sessions :
    (i : ℕ) (p : Payload) (now : ℕ) (s : Store) → (save_model_call i p now s).sessions ≡ s.sessions
unfolding save_model_call
save_model_call-sessions i p now s = refl

pub record_step-sessions :
    (i : ℕ) (x : SkillStep) (now : ℕ) (s : Store) → (record_step i x now s).1.sessions ≡ s.sessions
unfolding record_step
record_step-sessions i x now s = refl

record_activity-sessions :
    (i : Text) (r : ActivityRow) (s : Store) → (record_activity i r s).0.sessions ≡ s.sessions
unfolding record_activity
record_activity-sessions i r s = refl

if-sessions :
    (b : Bool) (x s : Store) → x.sessions ≡ s.sessions → (if b then x else s).sessions ≡ s.sessions
if-sessions true x s h = h
if-sessions false x s h = refl

pub remember-sessions :
    (o : Outside) (i : Text) (v : SessionView) (t : Text) (at_time : ℕ)
    (origin outcome : Option Text) (s : Store)
    → (remember o i v t at_time origin outcome s).sessions ≡ s.sessions
unfolding remember
remember-sessions o i v t at_time origin outcome s = search (if-sessions, record_activity-sessions)

module _ (o : Outside) (c : Config) where
  pub send-silent :
      (kind key : Text) (p : Payload) (d : Desk o)
      → table (send o c kind key p d) ≡ d.store.sessions
  unfolding send
  send-silent kind key p d = search (silent_rules, enqueue-sessions)

  pub finish_run-silent :
      (v : SessionView) (t : Text) (r : Option Receipt) (d : Desk o)
      → table (finish_run o c v t r d) ≡ d.store.sessions
  unfolding finish_run
  finish_run-silent v t r d = search (silent_rules, send-silent)

  pub step_telemetry-silent :
      (v : SessionView) (e : EventEnvelope) (d : Desk o)
      → table (enqueue_step_telemetry o c v e d) ≡ d.store.sessions
  unfolding enqueue_step_telemetry
  step_telemetry-silent v e d = search (silent_rules, send-silent)

  trusted_action-silent :
      (p : Option Text) (v : SessionView) (e : EventEnvelope) (d : Desk o)
      → table (trusted_action o c p v e d) ≡ d.store.sessions
  trusted_action-silent none v e d = refl
  trusted_action-silent (some p) v e d = search (silent_rules, send-silent)

  pub trusted_browser_action-silent :
      (v : SessionView) (e : EventEnvelope) (d : Desk o)
      → table (enqueue_trusted_browser_action o c v e d) ≡ d.store.sessions
  unfolding enqueue_trusted_browser_action
  trusted_browser_action-silent v e d = search (trusted_action-silent)

  verification-silent :
      (p : Option Text) (e : EventEnvelope) (b : Bool) (d : Desk o)
      → table (verification o c p e b d) ≡ d.store.sessions
  verification-silent none e b d = refl
  verification-silent (some p) e b d = send-silent _ _ _ d

  pub selector_verification-silent :
      (v : SessionView) (e : EventEnvelope) (b : Bool) (d : Desk o)
      → table (enqueue_selector_verification o c v e b d) ≡ d.store.sessions
  unfolding enqueue_selector_verification
  selector_verification-silent v e b d = search (verification-silent)

  pub record_outcome-silent :
      (v : SessionView) (t : Text) (d : Desk o) → table (record_outcome o v t d) ≡ d.store.sessions
  unfolding record_outcome
  record_outcome-silent v t d = search (silent_rules, remember-sessions)

  pub sync_summary-silent :
      (v : SessionView) (d : Desk o) → table (sync_session_summary o v d) ≡ d.store.sessions
  unfolding sync_session_summary
  sync_summary-silent v d = search (silent_rules, mark-sessions)

  pub close-silent :
      (v : SessionView) (t : Text) (r : Option Receipt) (k : CommandType) (i : Option Text)
      (d : Desk o)
      → table (close o c v t r k i d) ≡ d.store.sessions
  unfolding close
  close-silent v t r k i d =
      search (silent_rules, finish_run-silent, record_outcome-silent, sync_summary-silent)

  pub sharpen_pause-silent :
      (p : SafetyPresentation) (xs : List ElementCandidate) (b : Bool) (d : Desk o)
      → table (sharpen_pause o c p xs b d) ≡ d.store.sessions
  unfolding sharpen_pause
  sharpen_pause-silent p xs b d = search (silent_rules)

  send_cost-silent :
      (k : Option ModelCost) (d : Desk o) → table (send_cost o c k d) ≡ d.store.sessions
  send_cost-silent none d = refl
  send_cost-silent (some k) d = send-silent _ _ _ d

  pub record_call-silent :
      (i : ℕ) (v : SessionView) (m : GuidanceMode) (u : Usage) (l : ℕ) (t : Text) (r : ℕ)
      (d : Desk o)
      → table (record_call o c i v m u l t r d) ≡ d.store.sessions
  unfolding record_call
  record_call-silent i v m u l t r d =
      search (silent_rules, send-silent, send_cost-silent, save_model_call-sessions)

  pub unavailable-silent :
      (i : ℕ) (v : SessionView) (m : GuidanceMode) (u : Usage) (r : ℕ) (d : Desk o)
      → table (unavailable o c i v m u r d) ≡ d.store.sessions
  unfolding unavailable apologize
  unavailable-silent i v m u r d = search (silent_rules, record_call-silent)

  pub highlight_step-silent :
      (v : SessionView) (x : GuidanceDecision) (y : ElementCandidate) (d : Desk o)
      → table (highlight_step o c v x y d) ≡ d.store.sessions
  unfolding highlight_step
  highlight_step-silent v x y d = search (silent_rules)

  pub pause_step-silent :
      (v : SessionView) (xs : List ElementCandidate) (x : GuidanceDecision) (y : ElementCandidate)
      (s : SafetyResult) (d : Desk o)
      → table (pause_step o c v xs x y s d) ≡ d.store.sessions
  unfolding pause_step pause
  pause_step-silent v xs x y s d = search (silent_rules, sharpen_pause-silent)

  pub judge-silent :
      (v : SessionView) (xs : List ElementCandidate) (x : GuidanceDecision) (y : ElementCandidate)
      (s : SafetyResult) (d : Desk o)
      → table (judge o c v xs x y s d) ≡ d.store.sessions
  unfolding judge pause
  judge-silent v xs x y s d = search (silent_rules, pause_step-silent, highlight_step-silent)

  pub examine-silent :
      (i : ℕ) (v : SessionView) (xs : List ElementCandidate) (os : List Text) (t : Text)
      (m : GuidanceMode) (x : GuidanceDecision) (u : Usage) (r : ℕ) (d : Desk o)
      → table (examine o c i v xs os t m x u r d) ≡ d.store.sessions
  unfolding examine
  examine-silent i v xs os t m x u r d = search (silent_rules, judge-silent, record_call-silent)

  follow-silent :
      (i : ℕ) (v : SessionView) (xs : List ElementCandidate) (os : List Text) (t : Text)
      (m : GuidanceMode) (r : ℕ) (a : Option (GuidanceDecision × Usage)) (d : Desk o)
      → table (follow o c i v xs os t m r a d) ≡ d.store.sessions
  unfolding follow
  follow-silent i v xs os t m r none d = unavailable-silent i v m (no_usage o c) r d
  follow-silent i v xs os t m r (some (x, u)) d =
      search (silent_rules, examine-silent, unavailable-silent)

  pub decide-silent :
      (v : SessionView) (xs : List ElementCandidate) (os : List Text) (t : Text) (m : GuidanceMode)
      (d : Desk o)
      → table (decide o c v xs os t m d) ≡ d.store.sessions
  unfolding decide asked
  decide-silent v xs os t m d = search (silent_rules, follow-silent)

  pub present_replay-silent :
      (v : SessionView) (r : ReplayResolution) (x : ElementCandidate) (s : SelectorSpec) (i : ℕ)
      (d : Desk o)
      → table (present_replay o c v r x s i d) ≡ d.store.sessions
  unfolding present_replay
  present_replay-silent v r x s i d = search (silent_rules, send-silent)

  pub repair_step-silent :
      (v : SessionView) (k : SkillDocument) (xs : List ElementCandidate) (t : Text) (d : Desk o)
      → table (repair_step o c v k xs t d) ≡ d.store.sessions
  unfolding repair_step
  repair_step-silent v k xs t d = search (silent_rules, decide-silent)

  pub record_route-silent :
      (i : ℕ) (x : ElementCandidate) (t : Text) (p : Option Text) (q : VerificationPredicate)
      (d : Desk o)
      → table (record_route o c i x t p q d) ≡ d.store.sessions
  unfolding record_route
  record_route-silent i x t p q d = search (silent_rules, record_step-sessions)
