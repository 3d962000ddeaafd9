-- ===== src/Proto/Examples.antt =====
-- The tests of src/proto.rs, and the theorems at concrete lines.
use chonkline.Base.{◌≡◌, ◌≢◌, inr, refl, some, none, [], ◌∷◌, ◌++◌, codes, arith, All, ◌≤◌}
use chonkline.Str.{
  is_ascii_whitespace, is_ascii_alphabetic, to_ascii_uppercase, byte_len, trim_start,
}
use chonkline.Str.Split.{split, onto}
use chonkline.Proto.{
  Command, parse, parse_message, strip_tags, strip_source, take_word, drop_word, params_of,
  needs_trailing_marker, parse_tags, parse_tag, split_once, unescape_tag_value, escape_tag_value,
  params, crlf, body,
}
use chonkline.Proto.Tags.{unescape-escape}
use chonkline.Proto.Wire.{IsKeyword, Renderable, wire, meant, parse-params}
use chonkline.Proto.Shape.{IsShaped, parse-IsShaped}

abbrev hi : Command
hi = record {
  prefix = some (codes "WiZ");
  name = codes "PRIVMSG";
  params = codes "Angel" ∷ codes "hi there" ∷ [];
  tags = [];
}

parses_prefix : parse (codes ":WiZ PRIVMSG Angel :hi there") ≡ some hi
unfolding parse parse_message strip_tags strip_source take_word drop_word params_of
    is_ascii_whitespace is_ascii_alphabetic to_ascii_uppercase byte_len onto
parses_prefix = refl

parses_tags :
    parse (codes "@label=a\\:b\\sc\\\\d PRIVMSG #chan :hi")
    ≡ some (record {
      prefix = none;
      name = codes "PRIVMSG";
      params = codes "#chan" ∷ codes "hi" ∷ [];
      tags = (codes "label", some (codes "a;b c\\d")) ∷ [];
    })
unfolding parse parse_message strip_tags strip_source take_word drop_word params_of
    is_ascii_whitespace is_ascii_alphabetic to_ascii_uppercase byte_len onto parse_tags parse_tag
    split_once unescape_tag_value split trim_start
parses_tags = refl

rejects_bad_grammar : (parse (codes ":badprefix") ≡ none) × (parse (codes "   ") ≡ none)
unfolding parse parse_message strip_tags strip_source take_word drop_word params_of
    is_ascii_whitespace is_ascii_alphabetic to_ascii_uppercase byte_len onto
rejects_bad_grammar = (refl, refl)

parse-IsShaped_example : IsShaped (codes ":WiZ PRIVMSG Angel :hi there") hi
parse-IsShaped_example = parse-IsShaped (codes ":WiZ PRIVMSG Angel :hi there") hi parses_prefix

unescape-escape_example :
    unescape_tag_value (escape_tag_value (codes "a;b c\\d")) ≡ codes "a;b c\\d"
unescape-escape_example = unescape-escape (codes "a;b c\\d")

letters : IsKeyword (codes "PRIVMSG")
unfolding is_ascii_alphabetic
letters = ((λ e. cc), (refl, (refl, (refl, (refl, (refl, (refl, (refl, tt))))))))

words : Renderable (codes "Bo" ∷ codes "hi there" ∷ [])
unfolding is_ascii_whitespace needs_trailing_marker
words = (record { no_space = (refl, (refl, tt)); some_char = λ e. cc; no_colon = refl }, inr refl)

short : byte_len (wire none (codes "PRIVMSG") (codes "Bo" ∷ codes "hi there" ∷ [])) ≤ 510
unfolding byte_len body
short = omega arith

clean : All (λ c. c ≢ 0) (wire none (codes "PRIVMSG") (codes "Bo" ∷ codes "hi there" ∷ []))
unfolding body
clean = omega arith

parse-params_example :
    (params [] (codes "PRIVMSG") (codes "Bo" ∷ codes "hi there" ∷ [])
      ≡ wire none (codes "PRIVMSG") (codes "Bo" ∷ codes "hi there" ∷ []) ++ crlf)
    × (parse (wire none (codes "PRIVMSG") (codes "Bo" ∷ codes "hi there" ∷ []))
        ≡ some (meant none (codes "PRIVMSG") (codes "Bo" ∷ codes "hi there" ∷ [])))
parse-params_example =
    parse-params none (codes "PRIVMSG") (codes "Bo" ∷ codes "hi there" ∷ []) letters tt words
      (omega arith) short clean
