-- ===== src/Skill/Recorder.antt =====
-- The recorder of a demonstrated route (backend/app/services/route_recorder.py) and the rule that a
-- selector bundle obeys (backend/app/contracts/models.py).
pub mod Bundle
use web_accessible.Prelude.{
  Comparable, ◌==◌, nat_eq, eq_of_discrete, contains, dec_beq_iff, Text, codes, text_eq, is_space,
  is_nonempty, text_beq_iff, text_beq_refl, lower_idem, text_beq, lower_char, lower, lstrip, strip,
  is_blank, starts_with, occurs_in, Dict, lookup-put, lookup-remove, lookup-set_default, dict_laws,
  lookup, put, remove, set_default, ℕ, zero, suc, ◌+◌, ◌-◌, ◌*◌, ◌/◌, ◌%◌, ◌≤◌, ◌<◌, ◌≡◌, refl, sym,
  ap, ◌∙◌, ◌≢◌, ◌↔◌, ◌⊎◌, inl, inr, Bool, true, false, not, ◌&&◌, ◌||◌, Option, none, some, List,
  [], ◌∷◌, ◌++◌, map, reverse, arith, ltb, leb, nat_beq, if◌then◌else◌, ltb→lt, lt→ltb, leb→le,
  le→leb, nat_beq_iff, Bool-cases, Option-cases, length, get_elem?, set, take, drop, keep, count,
  any, all, All, length-append, length-set, length-keep, count-le-length, pos_part, neg_part, sub_ℕ,
  leb_ℤ, ltb_ℤ, sub_ℕ-le_iff, sub_ℕ-lt_iff, ℤ, pos, negsuc,
}
use web_accessible.Url.{scheme, netloc}
use web_accessible.Contracts.Element.{
  ElementCandidate, SelectorType, SelectorSpec, SelectorBundle, VerificationPredicate,
}
use web_accessible.Contracts.Skill.{SkillOutcome, SkillStep, SkillDocument}

-- `bool(value)` of an optional text.
abbrev pub is_present : Option Text → Bool
is_present none = false
is_present (some s) = is_nonempty s

abbrev pub text_of : Option Text → Text
text_of none = []
text_of (some s) = s

-- `_implicit_role`
unfoldable pub implicit_role : Text → Text
unfolding text_beq
implicit_role tag_name =
    if tag_name == codes "a"
    then codes "link"
    else if tag_name == codes "input"
    then codes "textbox"
    else codes "button"

-- `value or default`
abbrev pub present_or : Option Text → Text → Text
present_or value default = if is_present value then text_of value else default

pub aria_selector : ElementCandidate → List SelectorSpec
unfolding implicit_role
aria_selector c =
    if is_present c.accessible_name
    then record {
      kind = SelectorType.aria;
      role = some (present_or c.role (implicit_role c.tag_name));
      value = text_of c.accessible_name;
    }
      ∷ []
    else []

pub plain_selector : SelectorType → Option Text → List SelectorSpec
plain_selector kind value =
    if is_present value then record { kind = kind; role = none; value = text_of value } ∷ [] else []

-- The selectors of a step, the most stable first.
unfoldable pub stable_selectors : ElementCandidate → Option Text → List SelectorSpec
unfolding aria_selector plain_selector
stable_selectors c css_path =
    aria_selector c
    ++ (plain_selector SelectorType.text c.visible_text ++ plain_selector SelectorType.css css_path)

-- `rank` of `ordered_selectors`
abbrev pub rank : SelectorType → ℕ
rank SelectorType.aria = 0
rank SelectorType.text = 1
rank SelectorType.css = 2

-- `sorted(values)`
abbrev insert_sorted : ℕ → List ℕ → List ℕ
insert_sorted n [] = n ∷ []
insert_sorted n (m ∷ ms) = if leb n m then n ∷ m ∷ ms else m ∷ insert_sorted n ms

abbrev pub sorted : List ℕ → List ℕ
sorted [] = []
sorted (n ∷ ns) = insert_sorted n (sorted ns)

-- `len(set(values))`
abbrev pub distinct : List ℕ → ℕ
distinct [] = 0
distinct (n ∷ ns) = (if contains ns n then 0 else 1) + distinct ns

abbrev pub same_list : List ℕ → List ℕ → Bool
same_list [] [] = true
same_list (a ∷ as') (b ∷ bs) = a == b && same_list as' bs
same_list _ _ = false

-- The bounds on the length and `ordered_selectors`.
unfoldable pub is_ordered_bundle : List SelectorSpec → Bool
is_ordered_bundle selectors =
    let values = map (λ (s : SelectorSpec). rank s.kind) selectors in
    leb 1 (length selectors)
    && (leb (length selectors) 3
        && (same_list values (sorted values) && length values == distinct values))

-- An optional text of more than `n` characters.
abbrev pub is_longer : ℕ → Option Text → Bool
is_longer n none = false
is_longer n (some t) = ltb n (length t)

-- The bounds of `SelectorSpec`.
abbrev pub is_selector : SelectorSpec → Bool
is_selector s = leb 1 (length s.value) && (leb (length s.value) 320 && not (is_longer 40 s.role))

-- The bounds of `SkillStep` on the fields that the recorder passes.
abbrev pub is_described : Text → Option Text → Bool
is_described instruction description =
    leb 1 (length instruction) && (leb (length instruction) 240 && not (is_longer 160 description))

-- `record_verified_step` up to the write; `none` stands for `ValueError`, of which the contracts'
-- `ValidationError` is one. `step_id` is the fresh
-- identifier.
unfoldable pub verified_step :
    ℕ
    → ElementCandidate
    → Text
    → Option Text
    → VerificationPredicate
    → Bool
    → Option Text
    → Option SkillStep
unfolding stable_selectors
verified_step step_id candidate instruction css_path verification irreversible description =
    elim (stable_selectors candidate css_path) [
      | [] ↦ none
      | s ∷ ss ↦
          if all is_selector (s ∷ ss) && is_described instruction description
          then some (record {
            step_id = step_id;
            instruction = instruction;
            selectors = record { selectors = s ∷ ss };
            preconditions = [];
            expected_transition = verification;
            timeout_seconds = 30;
            irreversible = irreversible;
            irreversible_description = description;
            amount_source = none;
            repair_history = [];
          })
          else none
    ]

-- `compile_skill` from the recorded steps, with the bounds of `SkillDocument` on the name and the
-- steps; `none` stands for `ValueError`. What `HttpUrl` makes of the start is not modelled.
unfoldable pub compile_skill :
    ℕ → ℕ → ℕ → Text → Text → SkillOutcome → List SkillStep → Option SkillDocument
unfolding scheme netloc lower
compile_skill skill_key session_id now name start_url outcome [] = none
compile_skill skill_key session_id now name start_url outcome (s ∷ ss) =
    if leb 1 (length name) && (leb (length name) 160 && leb (length (s ∷ ss)) 40)
    then some (record {
      skill_key = skill_key;
      revision = 1;
      name = name;
      start_url = start_url;
      allowed_origins =
          (lower (scheme start_url) ++ (codes "://" ++ lower (netloc start_url))) ∷ [];
      source_session_id = session_id;
      task_outcome = outcome;
      steps = s ∷ ss;
      provider_skill_id = none;
      provider_case_ids = [];
      created_at = now;
    })
    else none
