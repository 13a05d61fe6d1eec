-- ===== src/Url.antt =====
-- `urllib.parse.urlsplit`, as far as the program reads it: the scheme and the network location.
use web_accessible.Prelude.{
  ℕ, Bool, ◌&&◌, ◌||◌, [], ◌∷◌, Text, codes, lower, leb, ◌==◌, nat_eq, if◌then◌else◌, Option, none,
  some, contains, ◌≡◌, refl, text_eq,
}

is_alpha : ℕ → Bool
is_alpha c = leb b'a' c && leb c b'z' || leb b'A' c && leb c b'Z'

-- The characters of a scheme.
is_scheme_char : ℕ → Bool
unfolding is_alpha
is_scheme_char c = is_alpha c || leb b'0' c && leb c b'9' || contains (codes "+-.") c

-- The characters before the first `:`, if all of them may stand in a scheme, and the rest.
cut_scheme : Text → Option (Text × Text)
unfolding is_scheme_char
cut_scheme [] = none
cut_scheme (c ∷ s) =
    let rest = cut_scheme s in
    if c == b':'
    then some ([], s)
    else if is_scheme_char c
    then elim rest [ none ↦ none | some (a, b) ↦ some (c ∷ a, b) ]
    else none

-- A scheme is not empty and begins with a letter.
split_scheme : Text → Text × Text
unfolding cut_scheme
split_scheme url = elim (cut_scheme url) [
  | none ↦ ([], url)
  | some (a, b) ↦ elim a [
    | [] ↦ ([], url)
    | c ∷ s ↦ if is_alpha c then (lower (c ∷ s), b) else ([], url)
  ]
]

-- The text up to the first `/`, `?` or `#`.
until_delimiter : Text → Text
until_delimiter [] = []
until_delimiter (c ∷ s) =
    let rest = until_delimiter s in if contains (codes "/?#") c then [] else c ∷ rest

authority : Text → Text
unfolding until_delimiter
authority (a ∷ b ∷ s) = if a == b'/' && b == b'/' then until_delimiter s else []
authority _ = []

unfoldable pub scheme : Text → Text
unfolding split_scheme
scheme url = (split_scheme url).0

unfoldable pub netloc : Text → Text
unfolding split_scheme authority
netloc url = authority (split_scheme url).1

-- The text from the first `/`, `?` or `#` on.
from_delimiter : Text → Text
from_delimiter [] = []
from_delimiter (c ∷ s) =
    let rest = from_delimiter s in if contains (codes "/?#") c then c ∷ s else rest

after_authority : Text → Text
unfolding from_delimiter
after_authority (a ∷ b ∷ s) = if a == b'/' && b == b'/' then from_delimiter s else a ∷ b ∷ s
after_authority s = s

-- The text up to the first `?` or `#`.
until_query : Text → Text
until_query [] = []
until_query (c ∷ s) = let rest = until_query s in if contains (codes "?#") c then [] else c ∷ rest

unfoldable pub path : Text → Text
unfolding split_scheme after_authority until_query
path url = until_query (after_authority (split_scheme url).1)

path_test : path (codes "https://example.com/a//b/?q=/c") ≡ codes "/a//b/"
unfolding path
path_test = refl

scheme_test : scheme (codes "HTTPS://Example.com:80/a?b") ≡ codes "https"
unfolding scheme lower
scheme_test = refl

netloc_test : netloc (codes "HTTPS://Example.com:80/a?b") ≡ codes "Example.com:80"
unfolding netloc
netloc_test = refl
