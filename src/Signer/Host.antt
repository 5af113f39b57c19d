-- ===== src/Signer/Host.antt =====
-- signer.go: the replacement of the scheme and host of a URL that the API returns, by
-- `regexp.MustCompile("^http[s]?://.*?/").ReplaceAllString(url, base + "/")`.
use cert_manager_essendi_xc.Base.{
  ℕ, zero, suc, ◌-◌, Bool, false, ◌||◌, ◌&&◌, not, Option, none, some, [], ◌∷◌, ◌++◌, ◌==◌, leb,
  length, if◌then◌else◌,
}
use cert_manager_essendi_xc.Base.Text.{Text, codes, has_prefix, text_eq}

-- `.*?/`: what follows the first slash, if no line ends before it.
unfoldable pub after_slash : Text → Option Text
after_slash [] = none
after_slash (c ∷ s) = if c == b'/' then some s else if c == 10 then none else after_slash s

abbrev pub drop : ℕ → Text → Text
drop zero s = s
drop (suc n) [] = []
drop (suc n) (c ∷ s) = drop n s

-- The rest of a text behind a match of the pattern, which is anchored at the beginning.
unfoldable pub after_host : Text → Option Text
unfolding after_slash
after_host s =
    if has_prefix s (codes "http://")
    then after_slash (drop 7 s)
    else if has_prefix s (codes "https://")
    then after_slash (drop 8 s)
    else none

-- A letter, digit or underscore, of ASCII.
abbrev is_word : ℕ → Bool
is_word c =
    leb b'a' c && leb c b'z' || leb b'A' c && leb c b'Z' || leb b'0' c && leb c b'9' || c == b'_'

abbrev word : Text → Text
word [] = []
word (c ∷ s) = if is_word c then c ∷ word s else []

abbrev closes : Text → Bool
closes [] = false
closes (c ∷ _) = c == b'}'

-- A reference behind `$`: its name and the text behind it; `none` if it is malformed.
abbrev plain_reference : Text → Option (Text × Text)
plain_reference s = elim (word s) [ [] ↦ none | c ∷ w ↦ some (c ∷ w, drop (length (c ∷ w)) s) ]

abbrev braced_reference : Text → Option (Text × Text)
braced_reference s = elim (word s) [
  | [] ↦ none
  | c ∷ w ↦
      if closes (drop (length (c ∷ w)) s) then some (c ∷ w, drop (suc (length (c ∷ w))) s) else none
]

abbrev reference : Text → Option (Text × Text)
reference [] = none
reference (c ∷ s) = if c == b'{' then braced_reference s else plain_reference (c ∷ s)

-- The pattern has no group: `0` is the whole match, and every other name is empty.
abbrev referred : Text → Text → Text
referred whole name = if text_eq name (codes "0") then whole else []

-- `Regexp.expand` of a template. Each round takes at least one character.
unfoldable pub expand : ℕ → Text → Text → Text
expand zero whole s = s
expand (suc fuel) whole [] = []
expand (suc fuel) whole (c ∷ s) =
    let plain = c ∷ expand fuel whole s in
    let double = b'$' ∷ expand fuel whole (drop 1 s) in
    let named : Text = elim (reference s) [
      | none ↦ b'$' ∷ expand fuel whole s
      | some (name, r) ↦ referred whole name ++ expand fuel whole r
    ] in
    if not (c == b'$') then plain else if has_prefix s (codes "$") then double else named

-- The match: what stands before the rest.
abbrev pub take : ℕ → Text → Text
take zero s = []
take (suc n) [] = []
take (suc n) (c ∷ s) = c ∷ take n s

abbrev pub replaced : Text → Text → Option Text → Text
replaced base url none = url
replaced base url (some r) =
    let match = take (length url - length r) url in
    expand (suc (length (base ++ codes "/"))) match (base ++ codes "/") ++ r

unfoldable pub replace_host : Text → Text → Text
unfolding after_host expand
replace_host base url = replaced base url (after_host url)
