-- ===== src/Proto/Wire.antt =====
-- src/proto.rs: `params` against `parse`.
use chonkline.Base.{
  ℕ, ◌≤◌, ◌≡◌, ◌≢◌, ◌⊎◌, inl, inr, refl, true, false, Option, none, some, List, [], ◌∷◌, ◌++◌, map,
  any, all, length, nat_beq, ltb, if◌then◌else◌, Text, All, arith, append_assoc, append-nil,
}
use chonkline.Str.{is_ascii_whitespace, is_ascii_alphabetic, to_ascii_uppercase, byte_len}
use chonkline.Str.Split.{onto}
use chonkline.Proto.{
  Command, params_of, in_param, body, params, line, crlf, needs_trailing_marker, parse,
  parse_message, strip_tags, strip_source, take_word, drop_word, is_empty, starts_with,
  max_content_bytes, max_params,
}

abbrev pub NoSpace : Text → Type 0
NoSpace = All (λ c. is_ascii_whitespace c ≡ false)

-- a parameter that needs no marker, and one that can stand last
pub record IsWord (a : Text) : Type 0 where
  pub no_space : NoSpace a
  pub some_char : a ≢ []
  pub no_colon : starts_with b':' a ≡ false

abbrev pub IsLast : Text → Type 0
IsLast a = IsWord a ⊎ (needs_trailing_marker a ≡ true)

abbrev pub Renderable : List Text → Type 0
Renderable [] = Unit
Renderable (a ∷ []) = IsLast a
Renderable (a ∷ b ∷ args) = IsWord a × Renderable (b ∷ args)

in_param-word : (a : Text) → NoSpace a → in_param a ≡ a ∷ []
unfolding in_param onto
in_param-word [] h = refl
in_param-word (c ∷ a) h = rw (h.0, in_param-word a h.1)

in_param-append : (a rest : Text) → NoSpace a → in_param (a ++ b' ' ∷ rest) ≡ a ∷ params_of rest
unfolding in_param onto
in_param-append [] rest h = refl
in_param-append (c ∷ a) rest h = rw (h.0, in_param-append a rest h.1)

params_of-word : (a : Text) → IsWord a → params_of a ≡ a ∷ []
unfolding params_of onto
params_of-word [] w = absurd (w.some_char refl)
params_of-word (c ∷ a) w = rw (w.no_space.0, w.no_colon, in_param-word a w.no_space.1)

params_of-append : (a rest : Text) → IsWord a → params_of (a ++ b' ' ∷ rest) ≡ a ∷ params_of rest
unfolding params_of onto
params_of-append [] rest w = absurd (w.some_char refl)
params_of-append (c ∷ a) rest w = rw (w.no_space.0, w.no_colon, in_param-append a rest w.no_space.1)

-- a word has no blank, so it gets no marker
NoSpace-any : (a : Text) → NoSpace a → any (λ c. nat_beq c b' ') a ≡ false
NoSpace-any [] h = refl
NoSpace-any (c ∷ a) h =
    let blank : nat_beq c b' ' ≡ false = unfold is_ascii_whitespace in ground arith in
    rw (blank, NoSpace-any a h.1)

needs_trailing_marker-word : (a : Text) → NoSpace a → needs_trailing_marker a ≡ false
unfolding needs_trailing_marker
needs_trailing_marker-word a h = rw (NoSpace-any a h) (ground arith)

params_of-marked : (a : Text) → params_of (b':' ∷ a) ≡ a ∷ []
unfolding params_of
params_of-marked a = refl

pub params_of-body : (args : List Text) → Renderable args → params_of (body args) ≡ args
unfolding body
params_of-body [] r = unfold params_of in refl
params_of-body (a ∷ []) (inl w) = rw (needs_trailing_marker-word a w.no_space) (params_of-word a w)
params_of-body (a ∷ []) (inr marked) = rw marked (params_of-marked a)
params_of-body (a ∷ b ∷ args) r =
    rw (params_of-append a (body (b ∷ args)) r.0, params_of-body (b ∷ args) r.1)

-- the message without its line end
abbrev pub spaced : Text → Text
spaced s = if is_empty s then [] else b' ' ∷ s

abbrev pub source_text : Option Text → Text
source_text none = []
source_text (some p) = b':' ∷ p

abbrev pub wire : Option Text → Text → List Text → Text
wire none keyword args = keyword ++ spaced (body args)
wire (some p) keyword args = b':' ∷ (p ++ b' ' ∷ (keyword ++ spaced (body args)))

params-wire :
    (source : Option Text) (keyword : Text) (args : List Text)
    → params (source_text source) keyword args ≡ wire source keyword args ++ crlf
unfolding params line
params-wire none keyword args = rw append_assoc
params-wire (some p) keyword args = simp append_assoc

take_word-append : (a rest : Text) → NoSpace a → take_word (a ++ b' ' ∷ rest) ≡ a
unfolding take_word
take_word-append [] rest h = unfold is_ascii_whitespace in refl
take_word-append (c ∷ a) rest h = rw (h.0, take_word-append a rest h.1)

drop_word-append : (a rest : Text) → NoSpace a → drop_word (a ++ b' ' ∷ rest) ≡ b' ' ∷ rest
unfolding drop_word
drop_word-append [] rest h = unfold is_ascii_whitespace in refl
drop_word-append (c ∷ a) rest h = rw (h.0, drop_word-append a rest h.1)

take_word-all : (a : Text) → NoSpace a → take_word a ≡ a
unfolding take_word
take_word-all [] h = refl
take_word-all (c ∷ a) h = rw (h.0, take_word-all a h.1)

drop_word-all : (a : Text) → NoSpace a → drop_word a ≡ []
unfolding drop_word
drop_word-all [] h = refl
drop_word-all (c ∷ a) h = rw (h.0, drop_word-all a h.1)

take_word-spaced : (a s : Text) → NoSpace a → take_word (a ++ spaced s) ≡ a
take_word-spaced a [] h = rw append-nil (take_word-all a h)
take_word-spaced a (c ∷ s) h = take_word-append a (c ∷ s) h

drop_word-spaced : (a s : Text) → NoSpace a → drop_word (a ++ spaced s) ≡ spaced s
drop_word-spaced a [] h = rw append-nil (drop_word-all a h)
drop_word-spaced a (c ∷ s) h = drop_word-append a (c ∷ s) h

params_of-spaced : (s : Text) → params_of (spaced s) ≡ params_of s
unfolding params_of is_ascii_whitespace
params_of-spaced [] = refl
params_of-spaced (c ∷ s) = refl

-- a keyword: ASCII letters, one at least
abbrev pub IsKeyword : Text → Type 0
IsKeyword k = (k ≢ []) × All (λ c. is_ascii_alphabetic c ≡ true) k

alphabetic_no_space : (c : ℕ) → is_ascii_alphabetic c ≡ true → is_ascii_whitespace c ≡ false
unfolding is_ascii_alphabetic is_ascii_whitespace
alphabetic_no_space c h = ground arith

keyword-NoSpace : (k : Text) → All (λ c. is_ascii_alphabetic c ≡ true) k → NoSpace k
keyword-NoSpace [] h = tt
keyword-NoSpace (c ∷ k) h = (alphabetic_no_space c h.0, keyword-NoSpace k h.1)

keyword-all :
    (k : Text) → All (λ c. is_ascii_alphabetic c ≡ true) k → all is_ascii_alphabetic k ≡ true
keyword-all [] h = refl
keyword-all (c ∷ k) h = rw (h.0, keyword-all k h.1)

-- what a rendered message means
abbrev pub meant : Option Text → Text → List Text → Command
meant source keyword args = record {
  prefix = source;
  name = map to_ascii_uppercase keyword;
  params = args;
  tags = [];
}

-- the prefix of a message ends at its first blank
abbrev pub IsSource : Option Text → Type 0
IsSource none = Unit
IsSource (some p) = NoSpace p

strip_source-wire :
    (source : Option Text) (keyword : Text) (args : List Text)
    → IsKeyword keyword
    → IsSource source
    → strip_source (wire source keyword args) ≡ (source, keyword ++ spaced (body args))
unfolding strip_source
strip_source-wire none [] args k p = absurd (k.0 refl)
strip_source-wire none (c ∷ keyword) args k p =
    let letter : nat_beq c b':' ≡ false = unfold is_ascii_alphabetic in ground (arith, k.1.0) in
    rw letter
strip_source-wire (some p) keyword args k h = rw (
  take_word-append p (keyword ++ spaced (body args)) h,
  drop_word-append p (keyword ++ spaced (body args)) h,
)

is_empty-ne : (s : Text) → s ≢ [] → is_empty s ≡ false
is_empty-ne [] h = absurd (h refl)
is_empty-ne (c ∷ s) h = refl

wire_some :
    (source : Option Text) (keyword : Text) (args : List Text)
    → IsKeyword keyword
    → is_empty (wire source keyword args) ≡ false
wire_some none [] args k = absurd (k.0 refl)
wire_some none (c ∷ keyword) args k = refl
wire_some (some p) keyword args k = refl

strip_tags-wire :
    (source : Option Text) (keyword : Text) (args : List Text)
    → IsKeyword keyword
    → strip_tags (wire source keyword args) ≡ some ([], wire source keyword args)
unfolding strip_tags
strip_tags-wire none [] args k = absurd (k.0 refl)
strip_tags-wire none (c ∷ keyword) args k =
    let letter : nat_beq c b'@' ≡ false = unfold is_ascii_alphabetic in ground (arith, k.1.0) in
    rw letter
strip_tags-wire (some p) keyword args k = refl

any_nul : (s : Text) → All (λ c. c ≢ 0) s → any (λ c. nat_beq c 0) s ≡ false
any_nul [] h = refl
any_nul (c ∷ s) h = ground (arith, any_nul s h.1)

leb_ltb : (a b : ℕ) → a ≤ b → ltb b a ≡ false
leb_ltb a b h = ground arith

parse_message-wire :
    (source : Option Text) (keyword : Text) (args : List Text)
    → IsKeyword keyword
    → IsSource source
    → Renderable args
    → length args ≤ max_params
    → parse_message [] (wire source keyword args) ≡ some (meant source keyword args)
unfolding parse_message
parse_message-wire source keyword args k p r few =
    let letters = keyword-NoSpace keyword k.1 in
    rw
      (
        wire_some source keyword args k,
        strip_source-wire source keyword args k p,
        take_word-spaced keyword (body args) letters,
        drop_word-spaced keyword (body args) letters,
        is_empty-ne keyword k.0,
        keyword-all keyword k.1,
        params_of-spaced (body args),
        params_of-body args r,
      )
      (ground arith)

-- Take a source without blanks, or none, a keyword of ASCII letters and at most fifteen parameters. Each
-- parameter is not empty, has no blank and does not start with a colon, but the last one may also be one
-- that has a space and does not start with a colon. If the line of these is within the length limit and
-- has no NUL, `params` gives this line with its line end, and parsing it gives back the source, the keyword
-- in upper case and the parameters, without tags. A last parameter that is empty or starts with a colon
-- is not among these.
pub parse-params :
    (source : Option Text) (keyword : Text) (args : List Text)
    → IsKeyword keyword
    → IsSource source
    → Renderable args
    → length args ≤ max_params
    → byte_len (wire source keyword args) ≤ max_content_bytes
    → All (λ c. c ≢ 0) (wire source keyword args)
    → (params (source_text source) keyword args ≡ wire source keyword args ++ crlf)
      × (parse (wire source keyword args) ≡ some (meant source keyword args))
unfolding parse
parse-params source keyword args k p r few short clean = (
  params-wire source keyword args,
  rw
      (
        leb_ltb _ _ short,
        wire_some source keyword args k,
        any_nul (wire source keyword args) clean,
        strip_tags-wire source keyword args k,
      )
      (parse_message-wire source keyword args k p r few),
)
