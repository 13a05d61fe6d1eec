-- ===== src/Safety.antt =====
-- The safety policy that stops an action (backend/app/domain/safety.py).
pub mod Verdict
pub mod Scam
use web_accessible.Prelude.{
  ℕ, Bool, true, false, not, ◌&&◌, ◌||◌, List, [], ◌∷◌, ◌++◌, map, Option, none, some, Text, codes,
  lower, contains, ◌==◌, text_eq, any, if◌then◌else◌,
}
use web_accessible.Contracts.Element.{
  SensitivityFlag, SensitivityFlag-discrete, flag_eq, SafetyClassification,
  SafetyClassification-discrete, classification_eq, ElementCandidate, Amount, AmountSource,
  GuidanceDecision, SafetyPresentation,
}
use web_accessible.Url.{scheme, netloc}

pub record SafetyResult : Type 0 where
  pub allowed : Bool
  pub should_escalate : Bool
  pub presentation : Option SafetyPresentation

-- `_origin`: the scheme and the network location, in lower case.
unfoldable pub origin : Text → Text
unfolding scheme netloc
origin url = lower (scheme url) ++ codes "://" ++ lower (netloc url)

-- `_action_label`
unfoldable pub action_label : SafetyClassification → Text
action_label SafetyClassification.money = codes "moving money"
action_label SafetyClassification.identity = codes "sending personal information"
action_label SafetyClassification.deletion = codes "deleting anything"
action_label _ = codes "continuing"

-- `classification in {MONEY, IDENTITY, DELETION, SUSPICIOUS, UNKNOWN}`
unfoldable pub is_risky : SafetyClassification → Bool
is_risky SafetyClassification.safe = false
is_risky _ = true

-- `classification in {SUSPICIOUS, UNKNOWN}`
unfoldable pub is_suspect : SafetyClassification → Bool
is_suspect SafetyClassification.suspicious = true
is_suspect SafetyClassification.unknown = true
is_suspect _ = false

-- A flag in `{PAYMENT, IDENTITY, BANK}`
unfoldable pub is_financial : SensitivityFlag → Bool
is_financial SensitivityFlag.payment = true
is_financial SensitivityFlag.identity = true
is_financial SensitivityFlag.bank = true
is_financial _ = false

-- The text of an amount whose source is known.
unfoldable pub amount_text : Option Amount → Text
amount_text none = []
amount_text (some a) = elim a.source [
  | AmountSource.unknown ↦ []
  | _ ↦ codes " for " ++ (a.currency ++ (codes " " ++ a.value))
]

abbrev pub password_message : Text
password_message =
    codes
      "Please use the site's saved sign-in controls; WebAccessible cannot read or enter a password."

abbrev pub unfamiliar_message : Text
unfamiliar_message =
    codes "Let's pause a moment; this unfamiliar page is asking for sensitive information."

unfoldable pub pause_message : Text → Text → Text
pause_message action amount =
    codes "Let's pause before "
    ++ (action ++ (amount ++ codes "; the real page is waiting for your choice."))

-- `unknown_origin`: the page's origin is none of the allowed ones.
unfoldable pub unknown_origin : Text → List Text → Bool
unfolding origin
unknown_origin current allowed = not (contains (map origin allowed) (origin current))

-- `SafetyPolicy.evaluate`
unfoldable pub evaluate : GuidanceDecision → ElementCandidate → Text → List Text → SafetyResult
unfolding SensitivityFlag-discrete is_risky is_suspect is_financial
evaluate decision target current_origin allowed_origins =
    let sensitive = target.sensitivity_flags in
    let classification = decision.safety_classification in
    let unfamiliar = unknown_origin current_origin allowed_origins in
    if contains sensitive SensitivityFlag.password
    then record {
      allowed = false;
      should_escalate = false;
      presentation = some (record {
        classification = SafetyClassification.identity;
        message = password_message;
        irreversible_action = none;
        amount = none;
        scam_category = none;
      });
    }
    else if is_risky classification || any is_financial sensitive
    then (let action = action_label classification in
        let suspect = unfamiliar || is_suspect classification in
        record {
          allowed = false;
          should_escalate = suspect;
          presentation = some (record {
            classification = classification;
            message =
                if suspect
                then unfamiliar_message
                else pause_message action (amount_text decision.amount);
            irreversible_action = some action;
            amount = decision.amount;
            scam_category = none;
          });
        })
    else record { allowed = true; should_escalate = false; presentation = none }
