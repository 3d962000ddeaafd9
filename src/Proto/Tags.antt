-- ===== src/Proto/Tags.antt =====
-- src/proto.rs: escaped tag values.
use chonkline.Base.{
  ℕ, ◌≡◌, ◌≢◌, refl, ap, [], ◌∷◌, ◌++◌, Text, All-append, arith, ◌∙◌, some, ◌⊎◌, inl, inr,
}
use chonkline.Str.Split.{Without}
use chonkline.Proto.{escape_char, escape_tag_value, unescape_tag_value, split_once, parse_tag}

unescape-escape_char :
    (c : ℕ) (rest : Text) → unescape_tag_value (escape_char c ++ rest) ≡ c ∷ unescape_tag_value rest
unfolding unescape_tag_value escape_char
unescape-escape_char c [] = ground arith
unescape-escape_char c (d ∷ rest) = ground arith

-- Unescaping gives back every value that was escaped.
pub unescape-escape : (s : Text) → unescape_tag_value (escape_tag_value s) ≡ s
unfolding escape_tag_value
unescape-escape [] = unfold unescape_tag_value in refl
unescape-escape (c ∷ s) =
    unescape-escape_char c (escape_tag_value s) ∙ ap (◌∷◌ c) (unescape-escape s)

-- the characters that would end a tag, the tag list or the line
pub record IsTagSafe (s : Text) : Type 0 where
  pub no_semicolon : Without b';' s
  pub no_space : Without b' ' s
  pub no_cr : Without 13 s
  pub no_lf : Without 10 s

escape_char-Without :
    (x c : ℕ) → ((x ≡ b';') ⊎ (x ≡ b' ') ⊎ (x ≡ 13) ⊎ (x ≡ 10)) → Without x (escape_char c)
unfolding escape_char
escape_char-Without x c h = ground arith

escape-Without :
    (x : ℕ) (s : Text)
    → ((x ≡ b';') ⊎ (x ≡ b' ') ⊎ (x ≡ 13) ⊎ (x ≡ 10))
    → Without x (escape_tag_value s)
unfolding escape_tag_value
escape-Without x [] h = tt
escape-Without x (c ∷ s) h =
    All-append (λ d. d ≢ x) (escape_char c) _ (escape_char-Without x c h) (escape-Without x s h)

-- An escaped value holds nothing that would end a tag, the list of tags or the line.
pub escape-IsTagSafe : (s : Text) → IsTagSafe (escape_tag_value s)
escape-IsTagSafe s = record {
  no_semicolon = escape-Without b';' s (inl refl);
  no_space = escape-Without b' ' s (inr (inl refl));
  no_cr = escape-Without 13 s (inr (inr (inl refl)));
  no_lf = escape-Without 10 s (inr (inr (inr refl)));
}

split_once-append :
    (sep : ℕ) (key value : Text)
    → Without sep key
    → split_once sep (key ++ sep ∷ value) ≡ some (key, value)
unfolding split_once
split_once-append sep [] value h = ground arith
split_once-append sep (c ∷ key) value h = ground (arith, split_once-append sep key value h.1)

-- A tag that is written with an escaped value is read back with the value itself.
pub parse_tag-escape :
    (key value : Text)
    → Without b'=' key
    → parse_tag (key ++ b'=' ∷ escape_tag_value value) ≡ (key, some value)
unfolding parse_tag
parse_tag-escape key value h =
    rw (split_once-append b'=' key (escape_tag_value value) h, parse_tag, unescape-escape value)
