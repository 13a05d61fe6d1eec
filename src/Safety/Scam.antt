-- ===== src/Safety/Scam.antt =====
-- The name of a risky request on a paused page (backend/app/services/scam_shield.py). The classifier
-- and the JSON parser are parameters.
use web_accessible.Prelude.{
  ◌==◌, nat_eq, contains, Text, codes, text_eq, is_space, is_nonempty, text_beq, strip, Dict,
  lookup, ℕ, ◌≡◌, refl, Bool, true, false, Option, none, some, List, [], ◌∷◌, ◌++◌, map, ltb,
  if◌then◌else◌, length, take, keep,
}

-- What is read of an answer: a label of a list is a text or something else.
pub data Field : Type 0 where
  missing other_field : Field
  one : Text → Field
  several : List (Option Text) → Field

pub data ClassifierValue : Type 0 where
  text : Text → ClassifierValue
  mapping : Field → Field → ClassifierValue
  labels : List (Option Text) → ClassifierValue
  other : ClassifierValue

-- `ScamVerdict`
pub record ScamVerdict : Type 0 where
  pub category : Text
  pub message : Text
  pub notify_caregiver : Bool

-- `_ORDINARY`
abbrev pub ordinary : Text
ordinary = codes "ordinary_page"

-- `_CATEGORY_MESSAGES`
abbrev pub category_messages : Dict Text Text
category_messages =
    (
      codes "identity_document_request",
      codes
          "This page is asking for a government identity number, and you have not used this site before.",
    )
    ∷ (
      codes "bank_or_payment_request",
      codes "This page is asking for bank or card details, and you have not used this site before.",
    )
    ∷ (codes "gift_card_request", codes "This page is asking you to buy or enter gift card codes.")
    ∷ (
      codes "fake_security_alert",
      codes "This page is claiming your computer has a problem, which is a common trick.",
    )
    ∷ (
      codes "urgent_payment_pressure",
      codes "This page is pressing you to pay quickly, which is a common trick.",
    )
    ∷ []

-- `_CATEGORIES`
abbrev pub categories : List Text
categories = map (λ m. m.0) category_messages ++ ordinary ∷ []

abbrev is_truthy : Field → Bool
is_truthy Field.missing = false
is_truthy Field.other_field = true
is_truthy (Field.one t) = is_nonempty t
is_truthy (Field.several []) = false
is_truthy (Field.several (l ∷ ls)) = true

unfoldable pub known : Text → Option Text
unfolding text_beq
known t = if contains categories t then some t else none

-- The first label of a list that is a category.
unfoldable pub first_known : List (Option Text) → Option Text
unfolding known
first_known [] = none
first_known (none ∷ rest) = first_known rest
first_known (some t ∷ rest) =
    let later = first_known rest in elim (known t) [ none ↦ later | some c ↦ some c ]

abbrev field_category : Field → Option Text
field_category (Field.one t) = known t
field_category (Field.several ls) = first_known ls
field_category _ = none

-- `_category` of a value that is no text to parse.
unfoldable pub structured_category : ClassifierValue → Option Text
unfolding known first_known
structured_category (ClassifierValue.mapping plural singular) =
    field_category (if is_truthy plural then plural else singular)
structured_category (ClassifierValue.labels ls) = first_known ls
structured_category _ = none

abbrev split_word : ℕ → List Text → List Text
split_word c [] = (c ∷ []) ∷ []
split_word c (word ∷ words) = (c ∷ word) ∷ words

abbrev cut_words : Text → List Text
cut_words [] = [] ∷ []
cut_words (c ∷ s) = let rest = cut_words s in if is_space c then [] ∷ rest else split_word c rest

abbrev join_words : List Text → Text
join_words [] = []
join_words (word ∷ []) = word
join_words (word ∷ words) = word ++ 32 ∷ join_words words

-- `" ".join(text.split())`
unfoldable pub squeeze : Text → Text
squeeze s = join_words (keep is_nonempty (cut_words s))

module _ (loads : Text → Option ClassifierValue) where
  abbrev parsed : Option ClassifierValue → Option Text
  parsed none = none
  parsed (some v) = structured_category v

  abbrev text_category : Text → Option Text
  text_category s =
      if is_nonempty s then (if contains categories s then some s else parsed (loads s)) else none

  -- `_category`
  unfoldable pub category : ClassifierValue → Option Text
  unfolding strip text_beq structured_category
  category (ClassifierValue.text t) = text_category (strip t)
  category v = structured_category v

  -- The verdict on a category.
  unfoldable pub verdict : Option Text → Option ScamVerdict
  unfolding text_beq lookup
  verdict none = none
  verdict (some c) = if c == ordinary then none else elim (lookup c category_messages) [
    | none ↦ none
    | some message ↦ some (record { category = c; message = message; notify_caregiver = true })
  ]

  abbrev answered : Option ClassifierValue → Option ScamVerdict
  answered none = none
  answered (some v) = verdict (category v)

  -- `triage`; the classifier is `none` where the adapter has none, and its answer where it raises.
  unfoldable pub triage : ℕ → Option (Text → Option ClassifierValue) → Text → Option ScamVerdict
  unfolding squeeze category verdict
  triage max_chars classify page_text =
      let t = take max_chars (squeeze page_text) in
      if ltb (length t) 12
      then none
      else elim classify [ none ↦ none | some ask ↦ answered (ask t) ]

  a_gift_card :
      triage 2000
        (some (λ t.
          some (ClassifierValue.mapping Field.missing (Field.one (codes "gift_card_request")))))
        (codes "Enter  the gift card code")
      ≡ some (record {
        category = codes "gift_card_request";
        message = codes "This page is asking you to buy or enter gift card codes.";
        notify_caregiver = true;
      })
  unfolding triage
  a_gift_card = refl
