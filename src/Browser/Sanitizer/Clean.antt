-- ===== src/Browser/Sanitizer/Clean.antt =====
-- What a redacted payload may hold (backend/app/browser/sanitizer.py).
use web_accessible.Prelude.{
  nat_eq, Text, text_eq, ℕ, zero, suc, ◌≤◌, ◌≡◌, refl, ap, inl, inr, false, List, [], ◌∷◌, arith,
  if◌then◌else◌, Bool-cases, length, take,
}
use web_accessible.Browser.Sanitizer.{
  Value, Entries, Items, is_forbidden, redact_payload, redact_value, redact_items,
}

-- No forbidden key, at any depth of dicts and of lists of dicts; every text of a dict is at most 320
-- characters long, and every list of a dict at most 120 items.
abbrev mutual
  pub IsClean : Entries → Type 0
  IsClean Entries.no_entry = Unit
  IsClean (Entries.entry key value rest) =
      (is_forbidden key ≡ false) × IsCleanValue value × IsClean rest

  pub IsCleanValue : Value → Type 0
  IsCleanValue (Value.text t) = length t ≤ 320
  IsCleanValue (Value.scalar n) = Unit
  IsCleanValue (Value.object entries) = IsClean entries
  IsCleanValue (Value.array items) = AreCleanItems 120 items

  pub AreCleanItems : ℕ → Items → Type 0
  AreCleanItems n Items.no_item = Unit
  AreCleanItems zero (Items.item value rest) = ⊥
  AreCleanItems (suc n) (Items.item (Value.object entries) rest) =
      IsClean entries × AreCleanItems n rest
  AreCleanItems (suc n) (Items.item (Value.text t) rest) = AreCleanItems n rest
  AreCleanItems (suc n) (Items.item (Value.scalar m) rest) = AreCleanItems n rest
  AreCleanItems (suc n) (Items.item (Value.array inner) rest) = AreCleanItems n rest

length-take : {A : Type 0} (n : ℕ) (xs : List A) → length (take n xs) ≤ n
length-take zero xs = omega arith
length-take (suc n) [] = omega arith
length-take (suc n) (x ∷ xs) = omega (arith, length-take n xs)

take_short : {A : Type 0} (n : ℕ) (xs : List A) → length xs ≤ n → take n xs ≡ xs
take_short zero [] h = refl
take_short zero (x ∷ xs) h = absurd (omega (arith, h))
take_short (suc n) [] h = refl
take_short (suc n) (x ∷ xs) h = ap (λ r. x ∷ r) (take_short n xs (omega (arith, h)))

keep_entry :
    (key : Text) (value : Value) (rest : Entries)
    → IsCleanValue value
    → IsClean rest
    → IsClean (if is_forbidden key then rest else Entries.entry key value rest)
keep_entry key value rest v r = elim (Bool-cases (is_forbidden key)) [
  | inl t ↦ rw t r
  | inr f ↦ rw f (f, v, r)
]

mutual
  unfolding redact_payload

  redact-IsClean : (entries : Entries) → IsClean (redact_payload entries)
  redact-IsClean Entries.no_entry = tt
  redact-IsClean (Entries.entry key value rest) =
      keep_entry key (redact_value value) (redact_payload rest) (redact-IsCleanValue value)
        (redact-IsClean rest)

  redact-IsCleanValue : (value : Value) → IsCleanValue (redact_value value)
  redact-IsCleanValue (Value.text t) = length-take 320 t
  redact-IsCleanValue (Value.scalar n) = tt
  redact-IsCleanValue (Value.object entries) = redact-IsClean entries
  redact-IsCleanValue (Value.array items) = redact-AreCleanItems 120 items

  redact-AreCleanItems : (n : ℕ) (items : Items) → AreCleanItems n (redact_items n items)
  redact-AreCleanItems zero items = tt
  redact-AreCleanItems (suc n) Items.no_item = tt
  redact-AreCleanItems (suc n) (Items.item (Value.object entries) rest) =
      (redact-IsClean entries, redact-AreCleanItems n rest)
  redact-AreCleanItems (suc n) (Items.item (Value.text t) rest) = redact-AreCleanItems n rest
  redact-AreCleanItems (suc n) (Items.item (Value.scalar m) rest) = redact-AreCleanItems n rest
  redact-AreCleanItems (suc n) (Items.item (Value.array inner) rest) = redact-AreCleanItems n rest

keep_fixed :
    (key : Text) (value kept : Value) (rest clean : Entries)
    → is_forbidden key ≡ false
    → kept ≡ value
    → clean ≡ rest
    → (if is_forbidden key then clean else Entries.entry key kept clean)
      ≡ Entries.entry key value rest
keep_fixed key value kept rest clean f v r = rw f cc

mutual
  unfolding redact_payload

  fixed_payload : (entries : Entries) → IsClean entries → redact_payload entries ≡ entries
  fixed_payload Entries.no_entry h = refl
  fixed_payload (Entries.entry key value rest) h =
      keep_fixed key value (redact_value value) rest (redact_payload rest) h.0
        (fixed_value value h.1) (fixed_payload rest h.2)

  fixed_value : (value : Value) → IsCleanValue value → redact_value value ≡ value
  fixed_value (Value.text t) h = ap Value.text (take_short 320 t h)
  fixed_value (Value.scalar n) h = refl
  fixed_value (Value.object entries) h = ap Value.object (fixed_payload entries h)
  fixed_value (Value.array items) h = ap Value.array (fixed_items 120 items h)

  fixed_items : (n : ℕ) (items : Items) → AreCleanItems n items → redact_items n items ≡ items
  fixed_items zero Items.no_item h = refl
  fixed_items zero (Items.item value rest) h = absurd h
  fixed_items (suc n) Items.no_item h = refl
  fixed_items (suc n) (Items.item (Value.object entries) rest) h =
      cc (fixed_payload entries h.0, fixed_items n rest h.1)
  fixed_items (suc n) (Items.item (Value.text t) rest) h =
      ap (Items.item (Value.text t)) (fixed_items n rest h)
  fixed_items (suc n) (Items.item (Value.scalar m) rest) h =
      ap (Items.item (Value.scalar m)) (fixed_items n rest h)
  fixed_items (suc n) (Items.item (Value.array inner) rest) h =
      ap (Items.item (Value.array inner)) (fixed_items n rest h)

-- A redacted payload holds no forbidden key in any dict that is reached through dicts and lists of
-- dicts, no text of a dict that is longer than 320 characters and no list of a dict that is longer
-- than 120 items; and redacting it again changes nothing.
pub redact_payload-IsClean :
    (entries : Entries)
    → IsClean (redact_payload entries)
      × (redact_payload (redact_payload entries) ≡ redact_payload entries)
redact_payload-IsClean entries =
    (redact-IsClean entries, fixed_payload (redact_payload entries) (redact-IsClean entries))
