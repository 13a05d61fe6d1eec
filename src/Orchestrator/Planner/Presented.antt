-- ===== src/Orchestrator/Planner/Presented.antt =====
-- What the planner's answer must pass before it is presented (backend/app/services/guidance.py).
use web_accessible.Prelude.{
  nat_eq, Text, codes, text_eq, ℕ, ◌-◌, ◌≤◌, ◌≡◌, inl, inr, Bool, true, false, not, Option, none,
  some, List, arith, ltb,
}
use web_accessible.Contracts.State.{GuidanceMode}
use web_accessible.Contracts.Element.{ElementCandidate, GuidanceDecision, SafetyPresentation}
use web_accessible.Safety.{SafetyResult, evaluate}
use web_accessible.Store.Types.{SessionView}
use web_accessible.Orchestrator.Desk.{
  Outside, Desk, Config, GuidanceResult, Usage, ◌>>◌, need, cond_m, call,
}
use web_accessible.Orchestrator.Desk.Inversion.{bind-eq_some, cond_m-eq_some, attempt-eq_some}
use web_accessible.Orchestrator.Planner.{
  chosen, available, pause, sharpen_pause, record_call, judge, doubt, pause_step, highlight_step,
}
use web_accessible.Orchestrator.Decide.{
  apologize, follow, asked, no_usage, unavailable, examine, decide,
}

module _ (o : Outside) (c : Config) (session : SessionView)
    (candidates : List ElementCandidate) where
  pause-blocked :
      (p : SafetyPresentation) (dec : GuidanceDecision) (x : ElementCandidate) (e : Bool)
      (d : Desk o) (r : GuidanceResult)
      → (pause o c session p dec x e d).0 ≡ some r
      → r.blocked ≡ true
  unfolding pause
  pause-blocked p dec x e d r h = ground arith

  pause_step-blocked :
      (dec : GuidanceDecision) (x : ElementCandidate) (s : SafetyResult) (d : Desk o)
      (r : GuidanceResult)
      → (pause_step o c session candidates dec x s d).0 ≡ some r
      → r.blocked ≡ true
  unfolding pause_step
  pause_step-blocked dec x s d r h =
      let (p, d', u, h') = bind-eq_some (need s.presentation d) _ r h in
      let (q, d'', v, h'') =
        bind-eq_some (sharpen_pause o c p candidates s.should_escalate d') _ r h' in
      pause-blocked q dec x s.should_escalate d'' r h''

  highlight_step-shows :
      (dec : GuidanceDecision) (x : ElementCandidate) (d : Desk o) (r : GuidanceResult)
      → (highlight_step o c session dec x d).0 ≡ some r
      → (r.decision ≡ some dec) × (r.candidate ≡ some x)
  unfolding highlight_step
  highlight_step-shows dec x d r h = ground arith

  -- The checks that a result which is not blocked has passed.
  abbrev pub IsCleared : List Text → Text → GuidanceResult → Type 0
  IsCleared allowed origin r =
      (dec : GuidanceDecision) × (x : ElementCandidate) × (r.decision ≡ some dec)
      × (r.candidate ≡ some x)
      × (chosen dec.target_candidate_id candidates ≡ some x)
      × (x.visible ≡ true)
      × (x.enabled ≡ true)
      × (6200 ≤ dec.confidence)
      × ((evaluate dec x origin allowed).allowed ≡ true)

  judge_clears :
      (dec : GuidanceDecision) (x : ElementCandidate) (s : SafetyResult) (d : Desk o)
      (r : GuidanceResult)
      → (judge o c session candidates dec x s d).0 ≡ some r
      → r.blocked ≡ false
      → (r.decision ≡ some dec)
        × (r.candidate ≡ some x)
        × (6200 ≤ dec.confidence)
        × (s.allowed ≡ true)
  unfolding judge
  judge_clears dec x s d r h b =
      elim (cond_m-eq_some (ltb dec.confidence 6200) (pause o c session (doubt o c dec) dec x true)
        (cond_m (not s.allowed) (pause_step o c session candidates dec x s)
          (highlight_step o c session dec x))
        d r h) [
          | inl (low, p) ↦ cc (pause-blocked (doubt o c dec) dec x true d r p, b)
          | inr (high, q) ↦
              elim (cond_m-eq_some (not s.allowed) (pause_step o c session candidates dec x s)
                (highlight_step o c session dec x) d r q) [
                  | inl (refused, p) ↦ cc (pause_step-blocked dec x s d r p, b)
                  | inr (fine, p) ↦
                      let g = highlight_step-shows dec x d r p in
                      (g.0, g.1, ground (arith, high), ground (arith, fine))
                ]
        ]

  available_lem :
      (found : Option ElementCandidate) (x : ElementCandidate) (d : Desk o)
      → (need {o = o} (available found) d).0 ≡ some x
      → (found ≡ some x) × (x.visible ≡ true) × (x.enabled ≡ true)
  unfolding available
  available_lem none x d h = cc
  available_lem (some y) x d h = ground arith

  recorded_clears :
      (call now latency : ℕ) (mode : GuidanceMode) (dec : GuidanceDecision) (u : Usage)
      (x : ElementCandidate) (s : SafetyResult) (d : Desk o) (r : GuidanceResult)
      → ((record_call o c call session mode u latency (codes "completed") now
            >> judge o c session candidates dec x s)
          d).0
        ≡ some r
      → r.blocked ≡ false
      → (r.decision ≡ some dec)
        × (r.candidate ≡ some x)
        × (6200 ≤ dec.confidence)
        × (s.allowed ≡ true)
  recorded_clears call now latency mode dec u x s d r h b =
      let (v, d', e, h') =
        bind-eq_some (record_call o c call session mode u latency (codes "completed") now d)
          (λ v. judge o c session candidates dec x s) r h in
      judge_clears dec x s d' r h' b

  examine_clears :
      (call now : ℕ) (allowed : List Text) (origin : Text) (mode : GuidanceMode)
      (dec : GuidanceDecision) (u : Usage) (d : Desk o) (r : GuidanceResult)
      → (examine o c call session candidates allowed origin mode dec u now d).0 ≡ some r
      → r.blocked ≡ false
      → IsCleared allowed origin r
  unfolding examine
  examine_clears call now allowed origin mode dec u d r h b =
      let found = chosen dec.target_candidate_id candidates in
      let (x, d', e, h') = bind-eq_some (need (available found) d) _ r h in
      let a = available_lem found x d e in
      let (t, w) = o.now d'.outside in
      let k =
        recorded_clears call now (t - now) mode dec u x (evaluate dec x origin allowed)
          (record d' { outside = w }) r h' b in
      (dec, x, k.0, k.1, a.0, a.1, a.2, k.2, k.3)

  apologized-blocked :
      (call now latency : ℕ) (mode : GuidanceMode) (u : Usage) (d : Desk o) (r : GuidanceResult)
      → ((record_call o c call session mode u latency (codes "failed") now >> apologize o c session)
          d).0
        ≡ some r
      → r.blocked ≡ true
  unfolding apologize
  apologized-blocked call now latency mode u d r h =
      let (v, d', e, h') =
        bind-eq_some (record_call o c call session mode u latency (codes "failed") now d)
          (λ v. apologize o c session) r h in
      ground arith

  unavailable-blocked :
      (call now : ℕ) (mode : GuidanceMode) (u : Usage) (d : Desk o) (r : GuidanceResult)
      → (unavailable o c call session mode u now d).0 ≡ some r
      → r.blocked ≡ true
  unfolding unavailable
  unavailable-blocked call now mode u d r h =
      let (t, w) = o.now d.outside in
      apologized-blocked call now (t - now) mode u (record d { outside = w }) r h

  answered_clears :
      (call now : ℕ) (allowed : List Text) (origin : Text) (mode : GuidanceMode)
      (answer : Option (GuidanceDecision × Usage)) (d : Desk o) (r : GuidanceResult)
      → (follow o c call session candidates allowed origin mode now answer d).0 ≡ some r
      → r.blocked ≡ false
      → IsCleared allowed origin r
  unfolding follow
  answered_clears call now allowed origin mode none d r h b =
      cc (unavailable-blocked call now mode (no_usage o c) d r h, b)
  answered_clears call now allowed origin mode (some (dec, u)) d r h b =
      elim (attempt-eq_some (examine o c call session candidates allowed origin mode dec u now)
        (unavailable o c call session mode u now) d r h) [
          | inl good ↦ examine_clears call now allowed origin mode dec u d r good b
          | inr bad ↦ cc (
            unavailable-blocked call now mode u
                (examine o c call session candidates allowed origin mode dec u now d).1 r bad,
            b,
          )
        ]

  -- A result that is not blocked presents the candidate that the planner chose from the page, which
  -- is visible and enabled; the planner's confidence was at least 0.62, and the safety policy allowed
  -- the step on this page.
  pub presented-IsCleared :
      (allowed : List Text) (origin : Text) (mode : GuidanceMode) (d : Desk o) (r : GuidanceResult)
      → (decide o c session candidates allowed origin mode d).0 ≡ some r
      → r.blocked ≡ false
      → IsCleared allowed origin r
  unfolding decide
  presented-IsCleared allowed origin mode d r h b =
      let (call, w) = o.fresh d.outside in
      let (now, w') = o.now w in
      let (answer, d', e, h') =
        bind-eq_some (asked o c session candidates mode (record d { outside = w' }))
          (follow o c call session candidates allowed origin mode now) r h in
      answered_clears call now allowed origin mode answer d' r h' b
