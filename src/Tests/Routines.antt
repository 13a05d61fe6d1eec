-- ===== src/Tests/Routines.antt =====
-- A routine that is recorded, replayed and repaired (backend/app/services/replay.py, repair.py,
-- route_recorder.py).
use web_accessible.Prelude.{
  nat_eq, Text, codes, text_eq, ◌≡◌, refl, true, false, none, some, List, [], ◌∷◌,
}
use web_accessible.Contracts.Element.{
  ElementCandidate, SelectorType, SelectorSpec, VerificationType, VerificationPredicate,
}
use web_accessible.Contracts.Skill.{SkillOutcome, SkillStep, SkillDocument}
use web_accessible.Skill.Replay.{ReplayResolution}
use web_accessible.Skill.Recorder.{is_ordered_bundle, verified_step}
use web_accessible.Skill.Recorder.Bundle.{verified_step_ordered}

abbrev named : Text → ElementCandidate
named name = record {
  candidate_id = name;
  role = some (codes "Button");
  accessible_name = some name;
  visible_text = some name;
  tag_name = codes "button";
  input_type = none;
  visible = true;
  enabled = true;
  focusable = true;
  checked = none;
  href_origin = none;
  href_redacted_path = none;
  sensitivity_flags = [];
}

abbrev present : VerificationPredicate
present = record {
  kind = VerificationType.element_present;
  value = codes "x";
  selector = none;
  state_name = none;
}

abbrev pay_selector : SelectorSpec
pay_selector = record {
  kind = SelectorType.aria;
  role = some (codes "button");
  value = codes "Pay";
}

abbrev pub pay_step : SkillStep
pay_step = record {
  step_id = 1;
  instruction = codes "Choose Pay.";
  selectors = record { selectors = pay_selector ∷ [] };
  preconditions = [];
  expected_transition = present;
  timeout_seconds = 30;
  irreversible = false;
  irreversible_description = none;
  amount_source = none;
  repair_history = [];
}

abbrev bill : SkillDocument
bill = record {
  skill_key = 1;
  revision = 1;
  name = codes "Pay the bill";
  start_url = codes "https://example.com";
  allowed_origins = codes "https://example.com" ∷ [];
  source_session_id = 1;
  task_outcome = SkillOutcome.prepared;
  steps = pay_step ∷ [];
  provider_skill_id = none;
  provider_case_ids = [];
  created_at = 0;
}

abbrev pay_page : List ElementCandidate
pay_page = named (codes "Help") ∷ named (codes "pay") ∷ []

abbrev pay_resolution : ReplayResolution
pay_resolution = record {
  step = pay_step;
  candidate = some (named (codes "pay"));
  matched_selector = some pay_selector;
  attempted_tiers = SelectorType.aria ∷ [];
}

abbrev pub recorded : SkillStep
recorded = record pay_step {
  selectors = record {
    selectors =
        record { kind = SelectorType.aria; role = some (codes "Button"); value = codes "Pay" }
        ∷ record { kind = SelectorType.text; role = none; value = codes "Pay" }
        ∷ record { kind = SelectorType.css; role = none; value = codes "#pay" }
        ∷ [];
  };
}

pay_recorded :
    verified_step 1
      (named (codes "Pay"))
      (codes "Choose Pay.")
      (some (codes "#pay"))
      present
      false
      none
    ≡ some recorded
unfolding verified_step
pay_recorded = refl

verified_step_ordered_example : is_ordered_bundle recorded.selectors.selectors ≡ true
verified_step_ordered_example =
    verified_step_ordered 1 (named (codes "Pay")) (codes "Choose Pay.") (some (codes "#pay"))
      present false none recorded pay_recorded
