-- ===== src/Orchestrator/Decide.antt =====
-- The planner is asked, its answer followed, and a failure answered
-- (backend/app/services/guidance.py).
use web_accessible.Prelude.{
  nat_eq, Text, codes, text_eq, ℕ, ◌-◌, true, false, Option, none, some, List,
}
use web_accessible.Contracts.State.{GuidanceMode}
use web_accessible.Contracts.Element.{ElementCandidate, GuidanceDecision}
use web_accessible.Contracts.Command.{CommandType}
use web_accessible.Safety.{evaluate}
use web_accessible.Store.Types.{SessionView}
use web_accessible.Orchestrator.Desk.{
  Outside, M, Config, GuidanceResult, Usage, ◌>>=◌, ◌>>◌, ret, need, ask, call, attempt,
}
use web_accessible.Orchestrator.Planner.{chosen, available, blank_command, record_call, judge}

module _ (o : Outside) (c : Config) where
  abbrev pub no_usage : Usage
  no_usage = record {
    input_tokens = none;
    output_tokens = none;
    estimated_input_tokens = none;
    model = none;
    model_version = none;
    provider = none;
    rate_card_version = none;
    query_id = none;
  }

  unfoldable pub apologize : SessionView → M o GuidanceResult
  apologize session = do
    fresh ← ask o.fresh
    ret (record {
      command =
          blank_command o c fresh session CommandType.provider_unavailable
            (some (codes "Guidance is unavailable right now; your browser session is still open."));
      decision = none;
      candidate = none;
      blocked = true;
      should_escalate = false;
      unavailable_code = some (codes "error");
    })

  -- The answer after a failure. The name of the exception's class is not modelled.
  unfoldable pub unavailable : ℕ → SessionView → GuidanceMode → Usage → ℕ → M o GuidanceResult
  unavailable call_id session mode usage requested_at = do
    finished ← ask o.now
    record_call o c call_id session mode usage (finished - requested_at) (codes "failed")
        requested_at
    apologize session

  -- The body of `decide`'s `try` once the planner has answered.
  unfoldable pub examine :
      ℕ
      → SessionView
      → List ElementCandidate
      → List Text
      → Text
      → GuidanceMode
      → GuidanceDecision
      → Usage
      → ℕ
      → M o GuidanceResult
  unfolding chosen available
  examine call_id session candidates allowed_origins current_origin mode decision usage
        requested_at =
      do
        candidate ← need (available (chosen decision.target_candidate_id candidates))
        finished ← ask o.now
        record_call o c call_id session mode usage (finished - requested_at) (codes "completed")
            requested_at
        judge o c session candidates decision candidate
            (evaluate decision candidate current_origin allowed_origins)

  -- The planner's answer; `none` where it raised.
  unfoldable pub asked :
      SessionView → List ElementCandidate → GuidanceMode → M o (Option (GuidanceDecision × Usage))
  asked session candidates mode =
      attempt (call (o.ask_model session.task_intent candidates mode) >>= λ a. ret (some a))
        (ret none)

  unfoldable pub follow :
      ℕ
      → SessionView
      → List ElementCandidate
      → List Text
      → Text
      → GuidanceMode
      → ℕ
      → Option (GuidanceDecision × Usage)
      → M o GuidanceResult
  follow call_id session candidates allowed_origins current_origin mode requested_at none =
      unavailable call_id session mode no_usage requested_at
  follow call_id session candidates allowed_origins current_origin mode requested_at
        (some (decision, usage)) =
      attempt
        (examine call_id session candidates allowed_origins current_origin mode decision usage
          requested_at)
        (unavailable call_id session mode usage requested_at)

  -- `decide`
  unfoldable pub decide :
      SessionView → List ElementCandidate → List Text → Text → GuidanceMode → M o GuidanceResult
  unfolding asked follow
  decide session candidates allowed_origins current_origin mode = do
    call_id ← ask o.fresh
    requested_at ← ask o.now
    answer ← asked session candidates mode
    follow call_id session candidates allowed_origins current_origin mode requested_at answer
