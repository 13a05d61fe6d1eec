-- ===== src/Tests/Policy.antt =====
-- A safe control, a payment control and an unfamiliar page (backend/app/domain/safety.py).
use web_accessible.Prelude.{
  nat_eq, contains, Text, codes, text_eq, text_beq, lower, ◌≡◌, refl, ◌↔◌, true, false, none, some,
  List, [], ◌∷◌, any,
}
use web_accessible.Contracts.Element.{
  SensitivityFlag, flag_eq, SafetyClassification, ElementCandidate, GuidanceDecision,
  VerificationType,
}
use web_accessible.Safety.{evaluate, is_financial, unknown_origin}
use web_accessible.Safety.Verdict.{allowed_iff}

abbrev pub control : List SensitivityFlag → ElementCandidate
control flags = record {
  candidate_id = codes "c1";
  role = some (codes "button");
  accessible_name = some (codes "Continue");
  visible_text = none;
  tag_name = codes "button";
  input_type = none;
  visible = true;
  enabled = true;
  focusable = true;
  checked = none;
  href_origin = none;
  href_redacted_path = none;
  sensitivity_flags = flags;
}

abbrev pub advice : SafetyClassification → GuidanceDecision
advice c = record {
  instruction = codes "Choose Continue.";
  target_candidate_id = codes "c1";
  expected_transition = record {
    kind = VerificationType.element_present;
    value = codes "x";
    selector = none;
    state_name = none;
  };
  confidence = 9000;
  safety_classification = c;
  amount = none;
}

abbrev pub home : Text
home = codes "https://example.com"

safe_step :
    (evaluate (advice SafetyClassification.safe) (control []) home (home ∷ [])).allowed ≡ true
unfolding evaluate
safe_step = refl

strange_page :
    (evaluate
      (advice SafetyClassification.money)
      (control [])
      (codes "https://other.test/a")
      (home ∷ [])).should_escalate
    ≡ true
unfolding evaluate unknown_origin lower text_beq
strange_page = refl

allowed_iff_example :
    ((evaluate
        (advice SafetyClassification.safe)
        (control (SensitivityFlag.bank ∷ []))
        home
        (home ∷ [])).allowed
      ≡ true)
    ↔ ((contains (SensitivityFlag.bank ∷ []) SensitivityFlag.password ≡ false)
        × (any is_financial (SensitivityFlag.bank ∷ []) ≡ false)
        × (◌≡◌ {A = SafetyClassification} SafetyClassification.safe SafetyClassification.safe))
allowed_iff_example =
    allowed_iff (advice SafetyClassification.safe) (control (SensitivityFlag.bank ∷ [])) home
      (home ∷ [])
