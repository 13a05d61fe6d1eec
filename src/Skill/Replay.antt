-- ===== src/Skill/Replay.antt =====
-- The replay engine: which element of the page a recorded step means
-- (backend/app/services/replay.py).
pub mod Uniqueness
use web_accessible.Prelude.{
  Comparable, ◌==◌, nat_eq, eq_of_discrete, contains, dec_beq_iff, Text, codes, text_eq, is_space,
  is_nonempty, text_beq_iff, text_beq_refl, lower_idem, text_beq, lower_char, lower, lstrip, strip,
  is_blank, starts_with, occurs_in, Dict, lookup-put, lookup-remove, lookup-set_default, dict_laws,
  lookup, put, remove, set_default, ℕ, zero, suc, ◌+◌, ◌-◌, ◌*◌, ◌/◌, ◌%◌, ◌≤◌, ◌<◌, ◌≡◌, refl, sym,
  ap, ◌∙◌, ◌≢◌, ◌↔◌, ◌⊎◌, inl, inr, Bool, true, false, not, ◌&&◌, ◌||◌, Option, none, some, List,
  [], ◌∷◌, ◌++◌, map, reverse, arith, ltb, leb, nat_beq, if◌then◌else◌, ltb→lt, lt→ltb, leb→le,
  le→leb, nat_beq_iff, Bool-cases, Option-cases, length, get_elem?, set, take, drop, keep, count,
  any, all, All, length-append, length-set, length-keep, count-le-length, pos_part, neg_part, sub_ℕ,
  leb_ℤ, ltb_ℤ, sub_ℕ-le_iff, sub_ℕ-lt_iff, ℤ, pos, negsuc,
}
use web_accessible.Contracts.Element.{ElementCandidate, SelectorType, SelectorSpec}
use web_accessible.Contracts.Skill.{SkillStep, SkillDocument}

pub record ReplayResolution : Type 0 where
  pub step : SkillStep
  pub candidate : Option ElementCandidate
  pub matched_selector : Option SelectorSpec
  pub attempted_tiers : List SelectorType

abbrev pub is_some {ℓ} : {A : Type ℓ} → Option A → Bool
is_some none = false
is_some (some a) = true

-- `matched`
abbrev pub is_matched : ReplayResolution → Bool
is_matched r = is_some r.candidate && is_some r.matched_selector

-- `value or ""`
abbrev pub or_empty : Option Text → Text
or_empty none = []
or_empty (some s) = s

-- `_matches`
unfoldable pub matches : SelectorSpec → ElementCandidate → Bool
unfolding lower
matches selector candidate = elim selector.kind [
  | SelectorType.aria ↦
      lower (or_empty candidate.accessible_name) == lower selector.value
      && (not (is_nonempty (or_empty selector.role))
          || lower (or_empty candidate.role) == lower (or_empty selector.role))
  | SelectorType.text ↦ lower (or_empty candidate.visible_text) == lower selector.value
  | SelectorType.css ↦ false
]

abbrev pub is_usable : ElementCandidate → Bool
is_usable c = c.visible && c.enabled

-- `eligible`
abbrev pub eligible : SelectorSpec → List ElementCandidate → List ElementCandidate
eligible selector candidates = keep is_usable (keep (matches selector) candidates)

-- The element, if there is exactly one.
abbrev pub the_only {ℓ} : {A : Type ℓ} → List A → Option A
the_only [] = none
the_only (x ∷ []) = some x
the_only (x ∷ y ∷ xs) = none

abbrev pub Attempt : Type 0
Attempt = Option (ElementCandidate × SelectorSpec) × List SelectorType

-- One round: the early return at a single eligible element, or the rounds that follow.
unfoldable pub choose : SelectorSpec → Option ElementCandidate → Attempt → Attempt
choose s (some c) rest = (some (c, s), s.kind ∷ [])
choose s none (found, attempted) = (found, s.kind ∷ attempted)

-- The loop over the selectors: the match, and the tiers that were attempted.
unfoldable pub try_selectors : List SelectorSpec → List ElementCandidate → Attempt
unfolding choose
try_selectors [] candidates = (none, [])
try_selectors (s ∷ ss) candidates =
    let rest = try_selectors ss candidates in choose s (the_only (eligible s candidates)) rest

resolution :
    SkillStep → Option (ElementCandidate × SelectorSpec) × List SelectorType → ReplayResolution
resolution step (none, attempted) = record {
  step = step;
  candidate = none;
  matched_selector = none;
  attempted_tiers = attempted;
}
resolution step (some (c, s), attempted) = record {
  step = step;
  candidate = some c;
  matched_selector = some s;
  attempted_tiers = attempted;
}

resolve_step : Option SkillStep → List ElementCandidate → Option ReplayResolution
unfolding resolution
resolve_step none candidates = none
resolve_step (some step) candidates =
    some (resolution step (try_selectors step.selectors.selectors candidates))

-- `ReplayEngine.resolve`; `none` stands for `IndexError`.
unfoldable pub resolve : SkillDocument → ℕ → List ElementCandidate → Option ReplayResolution
unfolding resolve_step
resolve skill step_index candidates = resolve_step (get_elem? skill.steps step_index) candidates
