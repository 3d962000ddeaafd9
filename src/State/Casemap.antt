-- ===== src/State/Casemap.antt =====
-- src/state.rs: `CASEMAPPING=rfc1459`, under which nicknames, channel names and account names are
-- compared, and the names that services hold.
use chonkline.Base.{
  ℕ, ◌≡◌, refl, Bool, ◌||◌, [], ◌∷◌, map, nat_beq, if◌then◌else◌, Text, codes, ◌==◌, text_eq, arith,
}
use chonkline.Str.{to_ascii_lowercase}
use chonkline.Glob.{glob_match}

-- the arms of the match
unfoldable pub fold_bracket : ℕ → ℕ
fold_bracket c =
    if nat_beq c b'{'
    then b'['
    else if nat_beq c b'}'
    then b']'
    else if nat_beq c b'|'
    then b'\\'
    else if nat_beq c b'^'
    then b'~'
    else c

unfoldable pub norm_char : ℕ → ℕ
norm_char c = fold_bracket (to_ascii_lowercase c)

unfoldable pub norm_nick : Text → Text
norm_nick s = map norm_char s

unfoldable pub is_service_name : Text → Bool
is_service_name s = norm_nick s == codes "nickserv" || norm_nick s == codes "chanserv"

unfoldable pub wildcard_match : Text → Text → Bool
wildcard_match pattern text = glob_match pattern text

norm_char_idem : (c : ℕ) → norm_char (norm_char c) ≡ norm_char c
unfolding norm_char fold_bracket to_ascii_lowercase
norm_char_idem c = ground arith

map-norm_char : (s : Text) → map norm_char (map norm_char s) ≡ map norm_char s
map-norm_char [] = refl
map-norm_char (c ∷ s) = rw (norm_char_idem c, map-norm_char s) refl

-- A key that is folded again stays as it is.
pub norm_nick_idem : (s : Text) → norm_nick (norm_nick s) ≡ norm_nick s
unfolding norm_nick
norm_nick_idem s = map-norm_char s
