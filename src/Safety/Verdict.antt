-- ===== src/Safety/Verdict.antt =====
-- What the safety policy guarantees (backend/app/domain/safety.py).
use web_accessible.Prelude.{true, false, ◌≡◌, ◌↔◌, List, Text, contains, any, arith}
use web_accessible.Contracts.Element.{
  SensitivityFlag, flag_eq, SafetyClassification, ElementCandidate, GuidanceDecision,
}
use web_accessible.Safety.{evaluate, is_risky, is_financial}

-- An action is allowed exactly when the element carries no password flag and no payment, identity
-- or bank flag, and the planner classified the action as safe.
pub allowed_iff :
    (d : GuidanceDecision) (t : ElementCandidate) (o : Text) (allowed : List Text)
    → ((evaluate d t o allowed).allowed ≡ true) ↔ (
        (contains t.sensitivity_flags SensitivityFlag.password ≡ false)
        × (any is_financial t.sensitivity_flags ≡ false)
        × (d.safety_classification ≡ SafetyClassification.safe))
unfolding evaluate is_risky
allowed_iff d t o allowed = (λ h. ground arith, λ h. ground arith)
