-- ===== src/Browser/Sanitizer.antt =====
-- The redaction of payloads before they are kept or sent on (backend/app/browser/sanitizer.py).
pub mod Clean
use web_accessible.Prelude.{
  ◌++◌, is_nonempty, keep, ◌==◌, nat_eq, Comparable, ◌==◌, nat_eq, eq_of_discrete, contains,
  dec_beq_iff, Text, codes, text_eq, is_space, is_nonempty, text_beq_iff, text_beq_refl, lower_idem,
  text_beq, lower_char, lower, lstrip, strip, is_blank, starts_with, occurs_in, Dict, lookup-put,
  lookup-remove, lookup-set_default, dict_laws, lookup, put, remove, set_default, ℕ, zero, suc, ◌+◌,
  ◌-◌, ◌*◌, ◌/◌, ◌%◌, ◌≤◌, ◌<◌, ◌≡◌, refl, sym, ap, ◌∙◌, ◌≢◌, ◌↔◌, ◌⊎◌, inl, inr, Bool, true, false,
  not, ◌&&◌, ◌||◌, Option, none, some, List, [], ◌∷◌, ◌++◌, map, reverse, arith, ltb, leb, nat_beq,
  if◌then◌else◌, ltb→lt, lt→ltb, leb→le, le→leb, nat_beq_iff, Bool-cases, Option-cases, length,
  get_elem?, set, take, drop, keep, count, any, all, All, length-append, length-set, length-keep,
  count-le-length, pos_part, neg_part, sub_ℕ, leb_ℤ, ltb_ℤ, sub_ℕ-le_iff, sub_ℕ-lt_iff, ℤ, pos,
  negsuc,
}
use web_accessible.Url.{path, scheme, netloc}

-- A JSON value; `scalar` is a number, a flag or null.
mutual
  pub data Value : Type 0 where
    text : Text → Value
    scalar : ℕ → Value
    object : Entries → Value
    array : Items → Value

  -- A dict, in the order of insertion.
  pub data Entries : Type 0 where
    no_entry : Entries
    entry : Text → Value → Entries → Entries

  pub data Items : Type 0 where
    no_item : Items
    item : Value → Items → Items

-- `FORBIDDEN_KEYS`
abbrev pub forbidden_keys : List Text
forbidden_keys =
    codes "value"
    ∷ codes "password"
    ∷ codes "card"
    ∷ codes "cvv"
    ∷ codes "cvc"
    ∷ codes "ssn"
    ∷ codes "cookie"
    ∷ codes "token"
    ∷ codes "secret"
    ∷ codes "authorization"
    ∷ []

unfoldable pub is_forbidden : Text → Bool
unfolding occurs_in lower
is_forbidden key = any (λ part. occurs_in part (lower key)) forbidden_keys

unfoldable mutual
  unfolding is_forbidden

  -- `redact_payload`
  pub redact_payload : Entries → Entries
  redact_payload no_entry = no_entry
  redact_payload (entry key value rest) =
      let clean = redact_payload rest in
      let kept = redact_value value in if is_forbidden key then clean else entry key kept clean

  pub redact_value : Value → Value
  redact_value (text t) = text (take 320 t)
  redact_value (scalar n) = scalar n
  redact_value (object entries) = object (redact_payload entries)
  redact_value (array items) = array (redact_items 120 items)

  -- The comprehension over `value[:120]`; an item that is no dict stands as it is.
  pub redact_items : ℕ → Items → Items
  redact_items zero items = no_item
  redact_items (suc n) no_item = no_item
  redact_items (suc n) (item (object entries) rest) =
      item (object (redact_payload entries)) (redact_items n rest)
  redact_items (suc n) (item (text t) rest) = item (text t) (redact_items n rest)
  redact_items (suc n) (item (scalar m) rest) = item (scalar m) (redact_items n rest)
  redact_items (suc n) (item (array inner) rest) = item (array inner) (redact_items n rest)

abbrev begin_part : ℕ → List Text → List Text
begin_part c [] = (c ∷ []) ∷ []
begin_part c (part ∷ parts) = (c ∷ part) ∷ parts

-- `path.split("/")`
abbrev split_path : Text → List Text
split_path [] = [] ∷ []
split_path (c ∷ s) = let rest = split_path s in if c == b'/' then [] ∷ rest else begin_part c rest

-- `"/".join(parts)`
abbrev join_path : List Text → Text
join_path [] = []
join_path (part ∷ []) = part
join_path (part ∷ parts) = part ++ b'/' ∷ join_path parts

-- `origin_and_path`
unfoldable pub origin_and_path : Text → Text × Text
unfolding lower scheme netloc path
origin_and_path url = (
  lower (scheme url) ++ codes "://" ++ lower (netloc url),
  b'/' ∷ join_path (keep is_nonempty (split_path (path url))),
)

origin_and_path_test :
    origin_and_path (codes "HTTPS://Example.com/a//b/?q=/c")
    ≡ (codes "https://example.com", codes "/a/b")
unfolding origin_and_path
origin_and_path_test = refl
