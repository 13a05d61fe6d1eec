-- ===== src/Browser/Verifier.antt =====
-- Whether a page shows what a step should have reached (backend/app/browser/verifier.py,
-- backend/app/browser/selector_resolver.py). The page is a parameter.
use web_accessible.Prelude.{
  ◌==◌, nat_eq, Text, codes, text_eq, is_nonempty, text_beq, lower, starts_with, occurs_in, ℕ, Bool,
  true, false, not, ◌&&◌, Option, none, some, List, [], ◌∷◌, ◌++◌, reverse, ltb, if◌then◌else◌,
  length, drop, any,
}
use web_accessible.Contracts.Element.{
  SelectorType, SelectorSpec, SelectorBundle, VerificationType, VerificationPredicate,
}
use web_accessible.Url.{path}

-- What is asked of a page and of its locators, and `re.fullmatch`; the flag of `get_by_text` is
-- `exact`.
pub record Page : Type 1 where
  pub Locator : Type 0
  pub url : Text
  pub title : Text
  pub get_by_role : Text → Text → Locator
  pub get_by_text : Text → Bool → Locator
  pub locator : Text → Locator
  pub count : Locator → ℕ
  pub is_visible : Locator → Bool
  pub is_enabled : Locator → Bool
  pub is_checked : Locator → Bool
  pub attribute : Text → Locator → Option Text
  pub fullmatch : Text → Text → Bool

abbrev strip_slash : Text → Text
strip_slash [] = []
strip_slash (c ∷ s) = let rest = strip_slash s in if c == b'/' then rest else c ∷ s

-- `text.rstrip("/")`
abbrev rstrip_slash : Text → Text
rstrip_slash s = reverse (strip_slash (reverse s))

-- `text.removeprefix(prefix)`
abbrev remove_prefix : Text → Text → Text
remove_prefix prefix s = if starts_with prefix s then drop (length prefix) s else s

abbrev role_of : Option Text → Text
role_of none = codes "button"
role_of (some role) = if is_nonempty role then role else codes "button"

abbrev or_empty : Option Text → Text
or_empty none = []
or_empty (some t) = t

module _ (page : Page) where
  open page use {
    Locator, url, title, get_by_role, get_by_text, locator, is_visible, is_enabled, is_checked,
    attribute, fullmatch,
  }

  -- `locator_for`
  unfoldable pub locator_for : SelectorSpec → Locator
  locator_for s = elim s.kind [
    | SelectorType.aria ↦ get_by_role (role_of s.role) s.value
    | SelectorType.text ↦ get_by_text s.value true
    | SelectorType.css ↦ locator s.value
  ]

  -- `uniquely_actionable`
  unfoldable pub uniquely_actionable : Locator → Bool
  uniquely_actionable l = page.count l == 1 && is_visible l && is_enabled l

  -- `_checked`
  abbrev checked_box : Locator → Bool
  checked_box l = elim (attribute (codes "aria-checked") l) [
    | none ↦ is_checked l
    | some t ↦ t == codes "true"
  ]

  -- `_verify_named_terminal`
  unfoldable pub verify_named_terminal : Text → Bool
  unfolding starts_with text_beq
  verify_named_terminal terminal =
      let lettuce = get_by_role (codes "checkbox") (codes "Lettuce") in
      let tomato = get_by_role (codes "checkbox") (codes "Tomato") in
      if terminal == codes "w3c_sandwich_choices_selected"
      then page.count lettuce == 1
        && page.count tomato == 1
        && checked_box lettuce
        && checked_box tomato
      else starts_with (codes "text:") terminal
        && ltb 0 (page.count (get_by_text (remove_prefix (codes "text:") terminal) false))

  abbrev is_found : SelectorBundle → Bool
  is_found b = any (λ s. page.count (locator_for s) == 1 && is_visible (locator_for s)) b.selectors

  abbrev shown_state : Text → Locator → Text
  shown_state name l = elim (attribute (codes "aria-" ++ name) l) [
    | none ↦
        if name == codes "checked"
        then (if is_checked l then codes "true" else codes "false")
        else []
    | some t ↦ t
  ]

  -- The branch of `ARIA_STATE_EQUALS`; a bundle has a first selector.
  abbrev state_equals : List SelectorSpec → Text → Text → Bool
  state_equals [] name value = false
  state_equals (s ∷ rest) name value =
      page.count (locator_for s) == 1
      && lower (shown_state (remove_prefix (codes "aria-") name) (locator_for s)) == lower value

  abbrev with_bundle : Option SelectorBundle → (SelectorBundle → Bool) → Bool
  with_bundle none f = false
  with_bundle (some b) f = f b

  -- `verify_predicate`
  unfoldable pub verify_predicate : VerificationPredicate → Bool
  unfolding path starts_with occurs_in lower text_beq locator_for verify_named_terminal
  verify_predicate p = elim p.kind [
    | VerificationType.url_path_equals ↦ rstrip_slash (path url) == rstrip_slash p.value
    | VerificationType.url_path_matches ↦ fullmatch p.value (path url)
    | VerificationType.page_title_contains ↦ occurs_in (lower p.value) (lower title)
    | VerificationType.visible_text_present ↦ ltb 0 (page.count (get_by_text p.value false))
    | VerificationType.element_present ↦ with_bundle p.selector is_found
    | VerificationType.element_absent ↦ with_bundle p.selector (λ b. not (is_found b))
    | VerificationType.aria_state_equals ↦
        is_nonempty (or_empty p.state_name)
        && with_bundle p.selector (λ b. state_equals b.selectors (or_empty p.state_name) p.value)
    | VerificationType.safe_terminal_reached ↦ verify_named_terminal p.value
  ]
