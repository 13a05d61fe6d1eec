-- ===== src/Skill/Recorder/Bundle.antt =====
-- What a recorded step may hold (backend/app/services/route_recorder.py).
use web_accessible.Prelude.{
  ◌==◌, nat_eq, Text, text_eq, ℕ, ◌≡◌, Bool, true, ◌&&◌, ◌||◌, Option, some, [], arith, ltb, length,
}
use web_accessible.Contracts.Element.{ElementCandidate, VerificationPredicate}
use web_accessible.Contracts.Skill.{SkillStep}
use web_accessible.Skill.Recorder.{is_longer, is_present, is_ordered_bundle, verified_step}

-- A recorded step holds a bundle that the contract accepts: one to three selectors, of different
-- tiers, in the order aria, text, css.
pub verified_step_ordered :
    (step_id : ℕ) (c : ElementCandidate) (instruction : Text) (css : Option Text)
    (v : VerificationPredicate) (irreversible : Bool) (d : Option Text) (step : SkillStep)
    → verified_step step_id c instruction css v irreversible d ≡ some step
    → is_ordered_bundle step.selectors.selectors ≡ true
unfolding verified_step is_ordered_bundle
verified_step_ordered step_id c instruction css v irreversible d step h = ground arith

-- What the contracts refuse of a step: a selector's text of more than 320 characters, a role of more
-- than 40 beside a name, an instruction that is empty or of more than 240, or a description of more
-- than 160.
abbrev pub breaks_bounds : ElementCandidate → Text → Option Text → Option Text → Bool
breaks_bounds c instruction css d =
    is_longer 320 c.accessible_name
    || is_longer 320 c.visible_text
    || is_longer 320 css
    || (is_present c.accessible_name && is_longer 40 c.role)
    || instruction == []
    || ltb 240 (length instruction)
    || is_longer 160 d
