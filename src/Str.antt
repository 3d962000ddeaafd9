-- ===== src/Str.antt =====
-- What the program uses of Rust's `str` and `char`: texts are lists of code points.
pub mod Split
pub mod Decimal
pub mod Utf8
pub mod Address
use chonkline.Base.{
  ℕ, ◌+◌, ◌-◌, Bool, true, false, not, ◌&&◌, ◌||◌, Option, none, some, List, [], ◌∷◌, reverse,
  nat_beq, ltb, in_range, if◌then◌else◌, Text, length, any,
}

-- `char::is_ascii_alphabetic`, `is_ascii_digit`, `is_ascii_uppercase`, `is_ascii_hexdigit`
unfoldable pub is_ascii_alphabetic : ℕ → Bool
is_ascii_alphabetic c = in_range b'A' b'Z' c || in_range b'a' b'z' c

unfoldable pub is_ascii_uppercase : ℕ → Bool
is_ascii_uppercase c = in_range b'A' b'Z' c

unfoldable pub is_ascii_digit : ℕ → Bool
is_ascii_digit c = in_range b'0' b'9' c

unfoldable pub is_ascii_hexdigit : ℕ → Bool
is_ascii_hexdigit c = in_range b'0' b'9' c || in_range b'A' b'F' c || in_range b'a' b'f' c

-- `is_ascii_whitespace`: space, tab, line feed, form feed, carriage return
unfoldable pub is_ascii_whitespace : ℕ → Bool
is_ascii_whitespace c = nat_beq c 32 || nat_beq c 9 || nat_beq c 10 || nat_beq c 12 || nat_beq c 13

-- `char::is_whitespace`: the Unicode property White_Space
unfoldable pub is_whitespace : ℕ → Bool
is_whitespace c =
    in_range 9 13 c
    || nat_beq c 32
    || nat_beq c 0x85
    || nat_beq c 0xa0
    || nat_beq c 0x1680
    || in_range 0x2000 0x200a c
    || nat_beq c 0x2028
    || nat_beq c 0x2029
    || nat_beq c 0x202f
    || nat_beq c 0x205f
    || nat_beq c 0x3000

-- `to_ascii_lowercase` and `to_ascii_uppercase` of a character
unfoldable pub to_ascii_lowercase : ℕ → ℕ
to_ascii_lowercase c = if in_range b'A' b'Z' c then c + 32 else c

unfoldable pub to_ascii_uppercase : ℕ → ℕ
to_ascii_uppercase c = if in_range b'a' b'z' c then c - 32 else c

-- `str::len`: the bytes of the UTF-8 form
unfoldable pub utf8_len : ℕ → ℕ
utf8_len c = if ltb c 0x80 then 1 else if ltb c 0x800 then 2 else if ltb c 0x1_0000 then 3 else 4

unfoldable pub byte_len : Text → ℕ
unfolding utf8_len
byte_len [] = 0
byte_len (c ∷ s) = utf8_len c + byte_len s

-- `str::trim_start`
unfoldable pub trim_start : Text → Text
unfolding is_whitespace
trim_start [] = []
trim_start (c ∷ s) = let rest = trim_start s in if is_whitespace c then rest else c ∷ s

-- `str::trim`
unfoldable pub trim : Text → Text
unfolding trim_start
trim s = reverse (trim_start (reverse (trim_start s)))

-- `strip_prefix`, and what is left
unfoldable pub strip_prefix : Text → Text → Option Text
strip_prefix [] s = some s
strip_prefix (p ∷ ps) [] = none
strip_prefix (p ∷ ps) (c ∷ s) = let rest = strip_prefix ps s in if nat_beq p c then rest else none

abbrev pub no_char : ℕ → Text → Bool
no_char x s = not (any (λ c. nat_beq c x) s)
