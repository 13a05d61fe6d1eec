-- ===== src/Contracts/Element.antt =====
-- Page elements, selectors, predicates and amounts (backend/app/contracts/models.py).
use web_accessible.Prelude.{ℕ, Bool, Option, List, Text, Comparable, eq_of_discrete}

pub data SensitivityFlag : Type 0 where
  password payment identity bank hidden token : SensitivityFlag

unfoldable pub SensitivityFlag-discrete : Discrete SensitivityFlag
SensitivityFlag-discrete = hlevel

instance abbrev pub flag_eq : Comparable SensitivityFlag
flag_eq = eq_of_discrete SensitivityFlag-discrete

pub data SafetyClassification : Type 0 where
  safe money identity deletion suspicious unknown : SafetyClassification

unfoldable pub SafetyClassification-discrete : Discrete SafetyClassification
SafetyClassification-discrete = hlevel

instance abbrev pub classification_eq : Comparable SafetyClassification
classification_eq = eq_of_discrete SafetyClassification-discrete

-- `bounding_rect`, the fields of a layout that no modelled decision reads, is left out.
pub record ElementCandidate : Type 0 where
  pub candidate_id : Text
  pub role : Option Text
  pub accessible_name : Option Text
  pub visible_text : Option Text
  pub tag_name : Text
  pub input_type : Option Text
  pub visible : Bool
  pub enabled : Bool
  pub focusable : Bool
  pub checked : Option Bool
  pub href_origin : Option Text
  pub href_redacted_path : Option Text
  pub sensitivity_flags : List SensitivityFlag

pub data SelectorType : Type 0 where
  aria text css : SelectorType

unfoldable pub SelectorType-discrete : Discrete SelectorType
SelectorType-discrete = hlevel

instance abbrev pub selector_eq : Comparable SelectorType
selector_eq = eq_of_discrete SelectorType-discrete

-- The field `type` is a reserved word of Python's own: it is `kind` here.
pub record SelectorSpec : Type 0 where
  pub kind : SelectorType
  pub role : Option Text
  pub value : Text

-- `SelectorBundle`, whose one field is the list.
pub record SelectorBundle : Type 0 where
  pub selectors : List SelectorSpec

pub data VerificationType : Type 0 where
  url_path_equals url_path_matches element_present element_absent aria_state_equals :
      VerificationType
  visible_text_present page_title_contains safe_terminal_reached : VerificationType

pub record VerificationPredicate : Type 0 where
  pub kind : VerificationType
  pub value : Text
  pub selector : Option SelectorBundle
  pub state_name : Option Text

pub data AmountSource : Type 0 where
  page_verified reviewed_fact unknown : AmountSource

-- `Decimal` enters only as the text that it prints.
pub record Amount : Type 0 where
  pub value : Text
  pub currency : Text
  pub source : AmountSource

-- The fields of the planner's decision that the backend's own code reads; `confidence` is held in
-- ten-thousandths.
pub record GuidanceDecision : Type 0 where
  pub instruction : Text
  pub target_candidate_id : Text
  pub expected_transition : VerificationPredicate
  pub confidence : ℕ
  pub safety_classification : SafetyClassification
  pub amount : Option Amount

pub record SafetyPresentation : Type 0 where
  pub classification : SafetyClassification
  pub message : Text
  pub irreversible_action : Option Text
  pub amount : Option Amount
  pub scam_category : Option Text
