-- ===== src/Orchestrator/Guide.antt =====
-- How a session is guided to its next step (backend/app/services/orchestrator.py).
use web_accessible.Prelude.{
  ◌==◌, nat_eq, Text, codes, text_eq, is_nonempty, lookup, put, ℕ, ◌+◌, Bool, true, false, ◌&&◌,
  ◌||◌, Option, none, some, List, [], ◌∷◌, ◌++◌, ltb, leb, if◌then◌else◌, length,
}
use web_accessible.Contracts.State.{
  SessionState, SessionState-discrete, state_eq, SessionMode, SessionMode-discrete, mode_eq,
  GuidanceMode,
}
use web_accessible.Contracts.Json.{null, flag, number, text, ident, instant, item, text_or_null}
use web_accessible.Contracts.Element.{ElementCandidate, SelectorType, SelectorSpec}
use web_accessible.Contracts.Command.{CommandType, BackendCommand}
use web_accessible.Contracts.Skill.{SkillDocument}
use web_accessible.Skill.Replay.{ReplayResolution, resolve}
use web_accessible.Store.Types.{SessionView}
use web_accessible.Orchestrator.Desk.{
  Outside, M, Config, GuidanceResult, RawSkill, ◌>>=◌, ◌>>◌, ret, need, reads, ask, call, cond_m,
}
use web_accessible.Orchestrator.Moves.{transition, update, publish, set_command}
use web_accessible.Orchestrator.Telemetry.{send, source}
use web_accessible.Orchestrator.Decide.{decide}
use web_accessible.Orchestrator.Outcome.{command_of}

-- The document that `_load_skill` reads from an answer; `none` is `ValueError`.
unfoldable pub read_skill : RawSkill → Option SkillDocument
read_skill (RawSkill.document s) = some s
read_skill (RawSkill.markdown m) = m
read_skill (RawSkill.mapping m) = m
read_skill RawSkill.other = none

-- A skill identifier that is there and not empty.
unfoldable pub skill_name : Option Text → Option Text
skill_name none = none
skill_name (some t) = if is_nonempty t then some t else none

-- The values of `SelectorType`.
unfoldable pub tier_value : SelectorType → Text
tier_value SelectorType.aria = codes "aria"
tier_value SelectorType.text = codes "text"
tier_value SelectorType.css = codes "css"

-- The states in which `begin_guidance` does nothing.
unfoldable pub is_over : SessionState → Bool
is_over SessionState.completed = true
is_over SessionState.prepared = true
is_over SessionState.escalated = true
is_over SessionState.abandoned = true
is_over SessionState.failed = true
is_over _ = false

abbrev pub page_changed : Text
page_changed = codes "The page has changed, so I am checking this one step again."

-- `min(n + 1, 2)`
abbrev pub next_attempt : ℕ → ℕ
next_attempt n = if ltb n 1 then n + 1 else 2

module _ (o : Outside) (c : Config) where
  abbrev keep_skill : ℕ → SkillDocument → M o (Unit {0})
  keep_skill session_id skill d = (some tt, record d { skills = put session_id skill d.skills })

  abbrev pub fetch_skill : SessionView → M o SkillDocument
  fetch_skill session = do
    name ← need (skill_name session.skill_id)
    raw ← call (o.get_skill session.user_id name)
    skill ← need (read_skill raw)
    keep_skill session.id skill
    view ← update o session.id false (λ v. record v {
      skill_revision = some skill.revision;
      total_steps = some (length skill.steps);
    })
    ret skill

  -- `_load_skill`
  unfoldable pub load_skill : SessionView → M o SkillDocument
  unfolding update skill_name read_skill
  load_skill session = do
    cached ← reads (λ d. lookup session.id d.skills)
    elim cached [ none ↦ fetch_skill session | some skill ↦ ret skill ]

  abbrev command_for : ℕ → SessionView → CommandType → Text → BackendCommand
  command_for fresh session kind instruction =
      record (command_of o c fresh session kind (some instruction)) {
        server_state_version = session.state_version + 1;
      }

  abbrev blocked : BackendCommand → Bool → Option Text → GuidanceResult
  blocked command escalates code = record {
    command = command;
    decision = none;
    candidate = none;
    blocked = true;
    should_escalate = escalates;
    unavailable_code = code;
  }

  abbrev remember_attempt : ℕ → Text → M o (Unit {0})
  remember_attempt session_id attempt_id d = (
    some tt,
    record d { pending_selector_attempts = put session_id attempt_id d.pending_selector_attempts },
  )

  -- A step of the routine that was found and highlighted.
  unfoldable pub present_replay :
      SessionView → ReplayResolution → ElementCandidate → SelectorSpec → ℕ → M o GuidanceResult
  unfolding send tier_value
  present_replay session resolution candidate selector page_instance_id = do
    let attempt_id =
        o.uuid_text session.id
        ++ (codes ":"
            ++ (o.int_text session.current_step_index ++ (codes ":" ++ tier_value selector.kind)))
    fresh ← ask o.fresh
    now ← ask o.now
    send o c (codes "selector_attempt") attempt_id (
        item "selector_attempt_id" (text attempt_id)
        ∷ item "session_id" (ident session.id)
        ∷ item "run_id" (ident session.id)
        ∷ item "user_id" (text session.user_id)
        ∷ item "step_id" (ident resolution.step.step_id)
        ∷ item "attempt_no" (
            number (
              if ltb (length resolution.attempted_tiers) 1
              then 1
              else length resolution.attempted_tiers))
        ∷ item "selector_tier" (text (tier_value selector.kind))
        ∷ item "selector_fingerprint" (
            text (
              o.payload_hash (
                item "type" (text (tier_value selector.kind))
                ∷ item "role" (text_or_null selector.role)
                ∷ item "value" (text selector.value)
                ∷ [])))
        ∷ item "resolution_result" (text (codes "matched"))
        ∷ item "matched_candidate_count" (number 1)
        ∷ item "verification_predicate"
            (text (o.predicate_json resolution.step.expected_transition))
        ∷ item "verification_result" (text (codes "pending"))
        ∷ item "trusted_user_action" (flag false)
        ∷ item "replayed_from_memory" (flag true)
        ∷ item "model_call_id" null
        ∷ source o c
        ∷ item "observed_at" (instant now)
        ∷ [])
    remember_attempt session.id attempt_id
    ret (record {
      command =
          record (command_for fresh session CommandType.present_guidance
            resolution.step.instruction) {
              page_instance_id = some page_instance_id;
              target = some (record {
                candidate_id = candidate.candidate_id;
                selectors = resolution.step.selectors;
              });
              expected_transition = some resolution.step.expected_transition;
            };
      decision = none;
      candidate = some candidate;
      blocked = false;
      should_escalate = false;
      unavailable_code = none;
    })

  -- A step that was not found: the repair, or its end.
  unfoldable pub repair_step :
      SessionView → SkillDocument → List ElementCandidate → Text → M o GuidanceResult
  unfolding decide
  repair_step session skill candidates current_origin =
      cond_m (leb 2 session.repair_attempts)
        (do
          fresh ← ask o.fresh
          ret (
              blocked
                (command_for fresh session CommandType.escalated
                  (codes "I could not match this changed page safely, so I have stopped here."))
                true none))
        (decide o c session candidates skill.allowed_origins current_origin GuidanceMode.repair)

  abbrev pub found : ReplayResolution → Option (ElementCandidate × SelectorSpec)
  found r = elim r.candidate [
    | none ↦ none
    | some x ↦ elim r.matched_selector [ none ↦ none | some s ↦ some (x, s) ]
  ]

  -- `_replay_guidance` once the step has been looked for.
  unfoldable pub replay_found :
      SessionView
      → SkillDocument
      → ReplayResolution
      → List ElementCandidate
      → ℕ
      → Text
      → Option (ElementCandidate × SelectorSpec)
      → M o GuidanceResult
  unfolding present_replay repair_step
  replay_found session skill resolution candidates page_instance_id current_origin none =
      repair_step session skill candidates current_origin
  replay_found session skill resolution candidates page_instance_id current_origin
        (some (candidate, selector)) =
      do
        highlighted ← call (o.highlight session.id candidate.candidate_id)
        cond_m highlighted (present_replay session resolution candidate selector page_instance_id)
            (repair_step session skill candidates current_origin)

  -- `_replay_guidance`
  unfoldable pub replay_guidance :
      SessionView → List ElementCandidate → ℕ → Text → M o GuidanceResult
  unfolding load_skill resolve replay_found
  replay_guidance session candidates page_instance_id current_origin = do
    skill ← load_skill session
    resolution ← need (resolve skill session.current_step_index candidates)
    replay_found session skill resolution candidates page_instance_id current_origin
        (found resolution)

  unfoldable pub activate : ℕ → BackendCommand → GuidanceResult → GuidanceMode → M o (Unit {0})
  activate session_id command r mode d = elim r.candidate [
    | none ↦ (some tt, d)
    | some x ↦ (
      some tt,
      record d {
        active =
            put session_id
              (record { command = command; candidate = x; decision = r.decision; mode = mode })
              d.active;
      },
    )
  ]

  -- What a result of the planner does to a session that is presented a step.
  unfoldable pub present_step : SessionView → GuidanceResult → M o SessionView
  unfolding activate transition set_command publish SessionMode-discrete SessionState-discrete
  present_step session result = do
    let replaying = session.mode == SessionMode.replay
    let decided : Bool = elim result.decision [ none ↦ false | some x ↦ true ]
    let mode =
        if session.state == SessionState.repairing || decided && replaying
        then GuidanceMode.repair
        else if replaying
        then GuidanceMode.replay
        else GuidanceMode.cold
    guiding ←
        transition o session SessionState.guiding
          (λ v. record v { current_instruction = result.command.instruction; guidance_mode = mode })
    updated ← transition o guiding SessionState.awaiting_user_action (λ v. v)
    let command = record result.command { server_state_version = updated.state_version }
    set_command o session.id command
    activate session.id command result mode
    publish o updated (some command) none
    ret updated
