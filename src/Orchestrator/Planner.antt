-- ===== src/Orchestrator/Planner.antt =====
-- The planner's answer, checked and turned into a command (backend/app/services/guidance.py). The
-- classifier of risky requests and the cost calculator are called outside.
pub mod Presented
use web_accessible.Prelude.{
  ◌==◌, nat_eq, Text, codes, text_eq, is_nonempty, ℕ, ◌+◌, ◌-◌, Bool, true, false, not, ◌&&◌,
  Option, none, some, List, [], ◌∷◌, ◌++◌, ltb, if◌then◌else◌, take,
}
use web_accessible.Contracts.State.{GuidanceMode, guidance_mode_value}
use web_accessible.Contracts.Json.{
  Json, null, number, text, ident, instant, item, text_or_null, number_or_null,
}
use web_accessible.Contracts.Element.{
  ElementCandidate, GuidanceDecision, SafetyPresentation, SelectorType, SelectorSpec,
  SelectorBundle,
}
use web_accessible.Contracts.Command.{CommandType, BackendCommand}
use web_accessible.Safety.{SafetyResult, evaluate}
use web_accessible.Store.Types.{SessionView}
use web_accessible.Store.Outbox.{save_model_call}
use web_accessible.Orchestrator.Desk.{
  Outside, M, Config, GuidanceResult, Usage, ModelCost, ◌>>=◌, ◌>>◌, ret, raise, need, done,
  on_store, ask, call, attempt, cond_m,
}
use web_accessible.Orchestrator.Telemetry.{send, source}

-- The candidate that the planner chose, `next(…, None)`.
unfoldable pub chosen : Text → List ElementCandidate → Option ElementCandidate
chosen id [] = none
chosen id (x ∷ xs) = if x.candidate_id == id then some x else chosen id xs

-- A chosen candidate that can be used; `none` is `ValueError`.
unfoldable pub available : Option ElementCandidate → Option ElementCandidate
available none = none
available (some x) = if x.visible && x.enabled then some x else none

abbrev given : Option Text → Option Text
given none = none
given (some t) = if is_nonempty t then some t else none

abbrev or_text : Option Text → Text → Text
or_text o t = elim (given o) [ none ↦ t | some u ↦ u ]

abbrev spec_if : Option Text → SelectorType → Option Text → List SelectorSpec
spec_if value kind role = elim (given value) [
  | none ↦ []
  | some v ↦ record { kind = kind; role = role; value = v } ∷ []
]

-- `_selectors`
unfoldable pub guidance_selectors : ElementCandidate → SelectorBundle
guidance_selectors x =
    let specs =
      spec_if x.accessible_name SelectorType.aria (some (or_text x.role (codes "button")))
      ++ spec_if x.visible_text SelectorType.text none in
    record {
      selectors = elim specs [
        | [] ↦ record { kind = SelectorType.text; role = none; value = x.candidate_id } ∷ []
        | y ∷ ys ↦ y ∷ ys
      ];
    }

abbrev parts : List ElementCandidate → List Text
parts [] = []
parts (x ∷ xs) =
    elim (given x.accessible_name) [ none ↦ [] | some t ↦ t ∷ [] ]
    ++ (elim (given x.visible_text) [ none ↦ [] | some t ↦ t ∷ [] ] ++ parts xs)

abbrev spaced : List Text → Text
spaced [] = []
spaced (t ∷ []) = t
spaced (t ∷ u ∷ us) = t ++ (codes " " ++ spaced (u ∷ us))

abbrev named : SafetyPresentation → Option (Text × Text) → SafetyPresentation
named p none = p
named p (some (message, category)) = record p {
  message = codes "Let's pause a moment. " ++ (message ++ codes " I've let your helper know.");
  scam_category = some category;
}

module _ (o : Outside) (c : Config) where
  -- `_sharpen_pause`
  unfoldable pub sharpen_pause :
      SafetyPresentation → List ElementCandidate → Bool → M o SafetyPresentation
  sharpen_pause presentation candidates escalate =
      cond_m escalate
        (do
          verdict ← call (o.triage (spaced (parts (take 24 candidates))))
          ret (named presentation verdict))
        (ret presentation)

  abbrev pub blank_command : ℕ → SessionView → CommandType → Option Text → BackendCommand
  blank_command fresh session kind instruction = record {
    command_id = fresh;
    session_id = session.id;
    server_state_version = session.state_version + 1;
    command_type = kind;
    page_instance_id = none;
    instruction = instruction;
    target = none;
    expected_transition = none;
    safety = none;
  }

  -- `_pause`
  unfoldable pub pause :
      SessionView
      → SafetyPresentation
      → GuidanceDecision
      → ElementCandidate
      → Bool
      → M o GuidanceResult
  pause session presentation decision candidate escalate = do
    fresh ← ask o.fresh
    ret (record {
      command =
          record (blank_command fresh session CommandType.safety_pause
            (some presentation.message)) { safety = some presentation };
      decision = some decision;
      candidate = some candidate;
      blocked = true;
      should_escalate = escalate;
      unavailable_code = none;
    })

  abbrev is_actual : Usage → Bool
  is_actual u = elim u.input_tokens [
    | none ↦ false
    | some i ↦ elim u.output_tokens [ none ↦ false | some j ↦ true ]
  ]

  abbrev cost_text : Option ModelCost → Json
  cost_text none = null
  cost_text (some k) = text k.amount_usd

  abbrev zero_if : Bool → Json
  zero_if true = number 0
  zero_if false = null

  abbrev pub send_cost : Option ModelCost → M o (Unit {0})
  send_cost none = done
  send_cost (some k) = send o c (codes "model_cost") k.cost_id k.payload

  abbrev hash_of : Option Text → Json
  hash_of q = elim (given q) [ none ↦ null | some t ↦ text (o.text_hash t) ]

  -- `_record_call`. The latency is the difference of two readings of the one clock.
  unfoldable pub record_call :
      ℕ → SessionView → GuidanceMode → Usage → ℕ → Text → ℕ → M o (Unit {0})
  unfolding send save_model_call guidance_mode_value
  record_call call_id session mode usage latency_ms status requested_at = do
    completed_at ← ask o.now
    let actual = is_actual usage
    let usage_status = if actual then codes "actual" else codes "unavailable"
    let model = or_text usage.model c.model_name
    let provider = or_text usage.provider (codes "snowflake_cortex")
    let card = or_text usage.rate_card_version c.rate_card_version
    calculated ←
        cond_m actual
          (attempt (call (o.cost call_id session usage completed_at) >>= λ k. ret (some k))
            (ret none))
          (ret none)
    now ← ask o.now
    on_store (
        save_model_call call_id
          (item "session_id" (ident session.id)
            ∷ item "step_id" null
            ∷ item "guidance_mode" (text (guidance_mode_value mode))
            ∷ item "provider" (text provider)
            ∷ item "model" (text model)
            ∷ item "input_tokens" (number_or_null usage.input_tokens)
            ∷ item "output_tokens" (number_or_null usage.output_tokens)
            ∷ item "latency_ms" (number latency_ms)
            ∷ item "status" (text status)
            ∷ item "rate_card_version" (text card)
            ∷ item "cost_usd" (cost_text calculated)
            ∷ [])
          now)
    send o c (codes "model_call") (o.uuid_text call_id) (
        item "call_id" (ident call_id)
        ∷ item "session_id" (ident session.id)
        ∷ item "run_id" (ident session.id)
        ∷ item "user_id" (text session.user_id)
        ∷ item "event_id" null
        ∷ item "step_id" null
        ∷ item "guidance_mode" (text (guidance_mode_value mode))
        ∷ item "provider" (text provider)
        ∷ item "model" (text model)
        ∷ item "model_version" (text_or_null usage.model_version)
        ∷ item "estimated_input_tokens" (number_or_null usage.estimated_input_tokens)
        ∷ item "actual_input_tokens" (number_or_null usage.input_tokens)
        ∷ item "actual_cached_input_tokens" (zero_if actual)
        ∷ item "actual_reasoning_tokens" (zero_if actual)
        ∷ item "actual_output_tokens" (number_or_null usage.output_tokens)
        ∷ item "usage_status" (text usage_status)
        ∷ item "latency_ms" (number latency_ms)
        ∷ item "status" (text status)
        ∷ item "provider_response_id_hash" (hash_of usage.query_id)
        ∷ source o c
        ∷ item "requested_at" (instant requested_at)
        ∷ item "completed_at" (instant completed_at)
        ∷ item "synchronized_at" (instant completed_at)
        ∷ [])
    send_cost calculated

  abbrev pub doubt : GuidanceDecision → SafetyPresentation
  doubt decision = record {
    classification = decision.safety_classification;
    message = codes "I am not certain enough about this page, so I have paused here.";
    irreversible_action = none;
    amount = none;
    scam_category = none;
  }

  abbrev pub shown : SessionView → GuidanceDecision → ElementCandidate → ℕ → GuidanceResult
  shown session decision candidate fresh = record {
    command =
        record (blank_command fresh session CommandType.present_guidance
          (some decision.instruction)) {
            target = some (record {
              candidate_id = candidate.candidate_id;
              selectors = guidance_selectors candidate;
            });
            expected_transition = some decision.expected_transition;
          };
    decision = some decision;
    candidate = some candidate;
    blocked = false;
    should_escalate = false;
    unavailable_code = none;
  }

  -- The step is highlighted and presented; a stale candidate is `ValueError`.
  unfoldable pub highlight_step :
      SessionView → GuidanceDecision → ElementCandidate → M o GuidanceResult
  unfolding guidance_selectors
  highlight_step session decision candidate = do
    highlighted ← call (o.highlight session.id candidate.candidate_id)
    cond_m highlighted (ask o.fresh >>= λ fresh. ret (shown session decision candidate fresh)) raise

  -- The pause that the safety policy asks for.
  unfoldable pub pause_step :
      SessionView
      → List ElementCandidate
      → GuidanceDecision
      → ElementCandidate
      → SafetyResult
      → M o GuidanceResult
  unfolding pause sharpen_pause
  pause_step session candidates decision candidate safety = do
    presentation ← need safety.presentation
    sharpened ← sharpen_pause presentation candidates safety.should_escalate
    pause session sharpened decision candidate safety.should_escalate

  -- What follows the safety policy: the checks of `decide` in their order.
  unfoldable pub judge :
      SessionView
      → List ElementCandidate
      → GuidanceDecision
      → ElementCandidate
      → SafetyResult
      → M o GuidanceResult
  judge session candidates decision candidate safety =
      cond_m (ltb decision.confidence 6200) (pause session (doubt decision) decision candidate true)
        (cond_m (not safety.allowed) (pause_step session candidates decision candidate safety)
          (highlight_step session decision candidate))
