-- ===== src/Uuid.antt =====
-- `str(uuid.UUID(text))`: the canonical spelling of a UUID, or nothing where Python raises
-- `ValueError`. The looser spellings of `int(text, 16)` (underscores, a sign) are not accepted here.
use web_accessible.Prelude.{
  ◌==◌, nat_eq, Text, codes, text_eq, lower, starts_with, ℕ, zero, suc, ◌-◌, ◌≡◌, refl, Bool, ◌&&◌,
  ◌||◌, Option, none, some, [], ◌∷◌, ◌++◌, reverse, leb, if◌then◌else◌, length, take, drop, all,
}

is_hex : ℕ → Bool
is_hex c = leb b'0' c && leb c b'9' || leb b'a' c && leb c b'f'

-- `text.replace(part, "")`; the counter says how many characters of a found part are left to skip.
erase_part : Text → ℕ → Text → Text
erase_part part n [] = []
erase_part part (suc n) (c ∷ s) = erase_part part n s
erase_part part zero (c ∷ s) =
    let found = starts_with part (c ∷ s) in
    let here = erase_part part zero s in
    let skip = erase_part part (length part - 1) s in if found then skip else c ∷ here

strip_braces_left : Text → Text
strip_braces_left [] = []
strip_braces_left (c ∷ s) =
    let rest = strip_braces_left s in if c == b'{' || c == b'}' then rest else c ∷ s

strip_braces : Text → Text
unfolding strip_braces_left
strip_braces s = reverse (strip_braces_left (reverse (strip_braces_left s)))

-- Eight, four, four, four and twelve digits.
dashed : Text → Text
dashed s =
    take 8 s
    ++ (codes "-"
        ++ (take 4 (drop 8 s)
            ++ (codes "-"
                ++ (take 4 (drop 12 s)
                    ++ (codes "-" ++ (take 4 (drop 16 s) ++ (codes "-" ++ drop 20 s)))))))

unfoldable pub canonical_uuid : Text → Option Text
unfolding erase_part strip_braces dashed is_hex lower starts_with
canonical_uuid value =
    let bare = erase_part (codes "uuid:") 0 (erase_part (codes "urn:") 0 value) in
    let digits = lower (erase_part (codes "-") 0 (strip_braces bare)) in
    if length digits == 32 && all is_hex digits then some (dashed digits) else none

abbrev pub sample_uuid : Text
sample_uuid = codes "12345678-1234-5678-1234-567812345678"

canonical_test :
    canonical_uuid (codes "{urn:uuid:12345678-1234-5678-1234-5678ABCDEF78}")
    ≡ some (codes "12345678-1234-5678-1234-5678abcdef78")
unfolding canonical_uuid
canonical_test = refl

canonical_refused : canonical_uuid (codes "session-1") ≡ none
unfolding canonical_uuid
canonical_refused = refl
