-- ===== src/Skill/Replay/Uniqueness.antt =====
-- A replayed step points at one element or at none (backend/app/services/replay.py).
use web_accessible.Prelude.{
  false, ◌||◌, ◌||◌, ◌==◌, ap, lower, ◌&&◌, ◌≢◌, count, Bool, keep, sym, nat_eq, text_eq, ◌≡◌,
  Option, some, List, [], ◌∷◌,
}
use web_accessible.Contracts.Element.{ElementCandidate, SelectorType, SelectorSpec}
use mathlib.Core.Path.{ap, sym}
use web_accessible.Skill.Replay.{or_empty, ReplayResolution}

-- An element that a selector means: visible, enabled, and with the name or the text that the selector
-- holds, whatever the case of the letters; a selector with a role wants that role too, and a path
-- means no element.
abbrev pub is_meant : SelectorSpec → ElementCandidate → Bool
is_meant s x =
    x.visible
    && (x.enabled && elim s.kind [
      | SelectorType.aria ↦
          lower (or_empty x.accessible_name) == lower s.value
          && (or_empty s.role == [] || lower (or_empty x.role) == lower (or_empty s.role))
      | SelectorType.text ↦ lower (or_empty x.visible_text) == lower s.value
      | SelectorType.css ↦ false
    ])

-- The first selector that means exactly one element is `s`, and `c` is that element; the selectors
-- before it mean none or several.
pub data FirstUnique (candidates : List ElementCandidate) (c : ElementCandidate) (s : SelectorSpec)
    : List SelectorSpec → List SelectorType → Type 0 where
  here :
      {r : SelectorSpec} {ss : List SelectorSpec}
      → r ≡ s
      → keep (is_meant r) candidates ≡ c ∷ []
      → FirstUnique candidates c s (r ∷ ss) (r.kind ∷ [])
  later :
      {r : SelectorSpec} {ss : List SelectorSpec} {ts : List SelectorType}
      → count (is_meant r) candidates ≢ 1
      → FirstUnique candidates c s ss ts
      → FirstUnique candidates c s (r ∷ ss) (r.kind ∷ ts)

module _ (cs : List ElementCandidate) (c : ElementCandidate) (s : SelectorSpec) where
  abbrev Explains : ReplayResolution → Type 0
  Explains r =
      r.candidate ≡ some c
      → r.matched_selector ≡ some s
      → FirstUnique cs c s r.step.selectors.selectors r.attempted_tiers
