-- ===== src/Proto.antt =====
-- src/proto.rs: the wire form of a message. Byte offsets of the source stand only at ASCII
-- characters, so a slice there is a suffix of the list of characters here. The command's name is
-- ASCII letters when it is put in upper case.
pub mod Tags
pub mod Wire
pub mod Shape
mod Examples
use chonkline.Base.{
  ℕ, ◌+◌, Bool, true, false, not, ◌&&◌, ◌||◌, Option, none, some, List, [], ◌∷◌, ◌++◌, map, length,
  retain, any, all, ltb, nat_beq, if◌then◌else◌, Text, codes, ◌>>=◌, ◌>>◌,
}
use chonkline.Str.{
  is_ascii_whitespace, is_ascii_alphabetic, to_ascii_uppercase, byte_len, trim_start, is_whitespace,
  utf8_len,
}
use chonkline.Str.Split.{split, onto}

abbrev pub max_content_bytes : ℕ
max_content_bytes = 510

abbrev pub max_params : ℕ
max_params = 15

abbrev pub TagList : Type 0
TagList = List (Text × Option Text)

pub record Command : Type 0 where
  pub prefix : Option Text
  pub name : Text
  pub params : List Text
  pub tags : TagList

abbrev pub is_empty : Text → Bool
is_empty [] = true
is_empty (c ∷ s) = false

-- `starts_with(':')`
abbrev pub starts_with : ℕ → Text → Bool
starts_with x [] = false
starts_with x (c ∷ s) = nat_beq c x

unfoldable pub needs_trailing_marker : Text → Bool
needs_trailing_marker s =
    not (is_empty s) && any (λ c. nat_beq c b' ') s && not (starts_with b':' s)

abbrev pub crlf : Text
crlf = 13 ∷ 10 ∷ []

unfoldable pub line : Text → Text → Text → Text
line prefix keyword tail =
    (if is_empty prefix then [] else prefix ++ b' ' ∷ [])
    ++ (keyword ++ ((if is_empty tail then [] else b' ' ∷ tail) ++ crlf))

-- the arguments of `params`, each behind a space but the first
unfoldable pub body : List Text → Text
unfolding needs_trailing_marker
body [] = []
body (a ∷ []) = if needs_trailing_marker a then b':' ∷ a else a
body (a ∷ b ∷ args) = a ++ b' ' ∷ body (b ∷ args)

unfoldable pub params : Text → Text → List Text → Text
unfolding line body
params prefix keyword args = line prefix keyword (body args)

unfoldable pub escape_char : ℕ → Text
escape_char c =
    if nat_beq c b';'
    then b'\\' ∷ b':' ∷ []
    else if nat_beq c b' '
    then b'\\' ∷ b's' ∷ []
    else if nat_beq c b'\\'
    then b'\\' ∷ b'\\' ∷ []
    else if nat_beq c 13
    then b'\\' ∷ b'r' ∷ []
    else if nat_beq c 10
    then b'\\' ∷ b'n' ∷ []
    else c ∷ []

unfoldable pub escape_tag_value : Text → Text
unfolding escape_char
escape_tag_value [] = []
escape_tag_value (c ∷ s) = escape_char c ++ escape_tag_value s

unfoldable pub unescape_char : ℕ → ℕ
unescape_char c =
    if nat_beq c b':'
    then b';'
    else if nat_beq c b's'
    then b' '
    else if nat_beq c b'r'
    then 13
    else if nat_beq c b'n'
    then 10
    else c

unfoldable pub unescape_tag_value : Text → Text
unfolding unescape_char
unescape_tag_value [] = []
unescape_tag_value (c ∷ []) = c ∷ []
unescape_tag_value (c ∷ d ∷ s) =
    let escaped = unescape_tag_value s in
    let plain = unescape_tag_value (d ∷ s) in
    if nat_beq c b'\\' then unescape_char d ∷ escaped else c ∷ plain

-- `split_once(sep)`
unfoldable pub split_once : ℕ → Text → Option (Text × Text)
split_once sep [] = none
split_once sep (c ∷ s) =
    let rest = split_once sep s in
    if nat_beq c sep
    then some ([], s)
    else elim rest [ none ↦ none | some (a, b) ↦ some (c ∷ a, b) ]

unfoldable pub parse_tag : Text → Text × Option Text
parse_tag tag = elim (split_once b'=' tag) [
  | none ↦ (tag, none)
  | some (k, v) ↦ (k, some (unescape_tag_value v))
]

unfoldable pub parse_tags : Text → TagList
unfolding parse_tag split
parse_tags raw = map parse_tag (retain (λ t. not (is_empty t)) (split b';' raw))

-- up to the first ASCII whitespace, and from it on
unfoldable pub take_word : Text → Text
take_word [] = []
take_word (c ∷ s) = let rest = take_word s in if is_ascii_whitespace c then [] else c ∷ rest

unfoldable pub drop_word : Text → Text
drop_word [] = []
drop_word (c ∷ s) = let rest = drop_word s in if is_ascii_whitespace c then c ∷ s else rest

-- `@tags ` in front: its end must be there
unfoldable pub strip_tags : Text → Option (TagList × Text)
strip_tags [] = some ([], [])
strip_tags (c ∷ s) =
    if nat_beq c b'@'
    then if is_empty (drop_word s)
      then none
      else some (parse_tags (take_word s), trim_start (drop_word s))
    else some ([], c ∷ s)

-- `:prefix` in front, and the text behind the one whitespace that ends it
abbrev pub tail : Text → Text
tail [] = []
tail (c ∷ s) = s

unfoldable pub strip_source : Text → Option Text × Text
strip_source [] = (none, [])
strip_source (c ∷ s) =
    if nat_beq c b':' then (some (take_word s), tail (drop_word s)) else (none, c ∷ s)

-- the loop over the characters behind the name: outside a parameter, and inside one
unfoldable mutual
  unfolding is_ascii_whitespace

  pub params_of : Text → List Text
  params_of [] = []
  params_of (c ∷ s) =
      let skip = params_of s in
      let token = in_param s in
      if is_ascii_whitespace c then skip else if nat_beq c b':' then s ∷ [] else onto c token

  pub in_param : Text → List Text
  in_param [] = [] ∷ []
  in_param (c ∷ s) =
      let next = params_of s in
      let token = in_param s in if is_ascii_whitespace c then [] ∷ next else onto c token

abbrev pub guard : Bool → Option (Unit {0})
guard true = some tt
guard false = none

-- from the text behind the tags
unfoldable pub parse_message : TagList → Text → Option Command
parse_message tags s = do
  guard (not (is_empty s))
  let (prefix, rest) = strip_source s
  let name = take_word rest
  guard (not (is_empty name) && all is_ascii_alphabetic name)
  let found = params_of (drop_word rest)
  guard (not (ltb max_params (length found)))
  some (record { prefix = prefix; name = map to_ascii_uppercase name; params = found; tags = tags })

unfoldable pub parse : Text → Option Command
parse s = do
  guard (
      not (ltb max_content_bytes (byte_len s))
      && not (is_empty s)
      && not (any (λ c. nat_beq c 0) s))
  (tags, rest) ← strip_tags s
  parse_message tags rest
