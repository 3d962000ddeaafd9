-- ===== src/Proto/Shape.antt =====
-- src/proto.rs: the shape of a parsed command.
use chonkline.Base.{
  ℕ, ◌≤◌, ◌≡◌, ◌≢◌, true, false, not, ◌&&◌, some, [], ◌∷◌, map, all, length, ltb, Text, All, arith,
  >>=-eq-some,
}
use chonkline.Str.{is_ascii_alphabetic, is_ascii_uppercase, to_ascii_uppercase, byte_len}
use chonkline.Proto.{
  Command, params_of, parse, parse_message, strip_tags, strip_source, take_word, drop_word,
  is_empty, max_content_bytes, max_params, TagList,
}

pub record IsShaped (s : Text) (c : Command) : Type 0 where
  pub short : byte_len s ≤ max_content_bytes
  pub few : length c.params ≤ max_params
  pub named : c.name ≢ []
  pub upper : All (λ x. is_ascii_uppercase x ≡ true) c.name

upper_letters :
    (s : Text)
    → all is_ascii_alphabetic s ≡ true
    → All (λ x. is_ascii_uppercase x ≡ true) (map to_ascii_uppercase s)
unfolding is_ascii_alphabetic is_ascii_uppercase to_ascii_uppercase
upper_letters [] h = tt
upper_letters (c ∷ s) h = (ground arith, upper_letters s (ground arith))

map-ne : (f : ℕ → ℕ) (s : Text) → is_empty s ≡ false → map f s ≢ []
map-ne f [] h = cc
map-ne f (c ∷ s) h = λ e. cc

parse_message-shape :
    (tags : TagList) (s : Text) (c : Command)
    → parse_message tags s ≡ some c
    → (length c.params ≤ max_params) × (c.name ≢ []) × All (λ x. is_ascii_uppercase x ≡ true) c.name
unfolding parse_message
parse_message-shape tags s c h =
    let name = take_word (strip_source s).1 in
    let e : map to_ascii_uppercase name ≡ c.name = ground arith in
    let p : params_of (drop_word (strip_source s).1) ≡ c.params = ground arith in
    let few : ltb max_params (length (params_of (drop_word (strip_source s).1))) ≡ false =
      ground arith in
    let letters : (not (is_empty name) && all is_ascii_alphabetic name) ≡ true = ground arith in
    (
      rw (← p) (ground (arith, few)),
      rw (← e) (map-ne to_ascii_uppercase name (ground (arith, letters))),
      rw (← e) (upper_letters name (ground (arith, letters))),
    )

-- A line that parses is within the length limit, and its command has at most fifteen parameters
-- and a name of upper-case letters, one at least.
pub parse-IsShaped : (s : Text) (c : Command) → parse s ≡ some c → IsShaped s c
unfolding parse
parse-IsShaped s c h =
    let fits : ltb max_content_bytes (byte_len s) ≡ false = ground arith in
    let ((tags, rest), _, inner) =
      >>=-eq-some (strip_tags s) (λ p. parse_message p.0 p.1) {b = c} (ground arith) in
    let (few, named, upper) = parse_message-shape tags rest c inner in
    record { short = ground arith; few = few; named = named; upper = upper }
