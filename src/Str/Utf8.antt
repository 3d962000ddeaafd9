-- ===== src/Str/Utf8.antt =====
-- `s.as_bytes()` and `String::from_utf8`.
use chonkline.Base.{
  ℕ, zero, suc, ◌+◌, ◌-◌, ◌*◌, ◌/◌, ◌%◌, ◌<◌, ◌≤◌, ◌≡◌, refl, Bool, true, false, ◌&&◌, ◌||◌, Option,
  none, some, [], ◌∷◌, ◌++◌, ltb, leb, in_range, if◌then◌else◌, Text, Bytes, All, All-append, arith,
  ap, ◌∙◌, if_cases, ltb→lt,
}
use chonkline.Crypto.Compare.{Octets}

abbrev pub encode_char : ℕ → Bytes
encode_char c =
    if ltb c 128
    then c ∷ []
    else if ltb c 2048
    then (192 + c / 64) ∷ (128 + c % 64) ∷ []
    else if ltb c 65536
    then (224 + c / 4096) ∷ (128 + c / 64 % 64) ∷ (128 + c % 64) ∷ []
    else (240 + c / 262144) ∷ (128 + c / 4096 % 64) ∷ (128 + c / 64 % 64) ∷ (128 + c % 64) ∷ []

unfoldable pub as_bytes : Text → Bytes
as_bytes [] = []
as_bytes (c ∷ s) = encode_char c ++ as_bytes s

-- a code point that `char` holds
abbrev pub is_char : ℕ → Bool
is_char c = ltb c 55296 || in_range 57344 1114111 c

abbrev pub push_front : ℕ → Option Text → Option Text
push_front c none = none
push_front c (some s) = some (c ∷ s)

-- how many bytes follow the first one, and what it holds
abbrev first_byte : ℕ → Option (ℕ × ℕ)
first_byte b =
    if in_range 194 223 b
    then some (1, b - 192)
    else if in_range 224 239 b
    then some (2, b - 224)
    else if in_range 240 244 b
    then some (3, b - 240)
    else none

-- the least character of so many bytes after the first
abbrev least : ℕ → ℕ
least zero = 0
least (suc zero) = 128
least (suc (suc zero)) = 2048
least (suc (suc (suc n))) = 65536

-- `more` bytes of a character of `1 + long` bytes are still to come after the value `v`
unfoldable pub decode_from : ℕ → ℕ → ℕ → Bytes → Option Text
decode_from long zero v [] = some []
decode_from long (suc more) v [] = none
decode_from long zero v (b ∷ bytes) =
    let ascii = decode_from 0 0 0 bytes in
    let two = decode_from 1 1 (b - 192) bytes in
    let three = decode_from 2 2 (b - 224) bytes in
    let four = decode_from 3 3 (b - 240) bytes in
    if ltb b 128
    then push_front b ascii
    else if in_range 194 223 b
    then two
    else if in_range 224 239 b
    then three
    else if in_range 240 244 b
    then four
    else none
decode_from long (suc zero) v (b ∷ bytes) =
    let c = v * 64 + (b - 128) in
    let rest = decode_from 0 0 0 bytes in
    if in_range 128 191 b && is_char c && leb (least long) c then push_front c rest else none
decode_from long (suc (suc more)) v (b ∷ bytes) =
    let rest = decode_from long (suc more) (v * 64 + (b - 128)) bytes in
    if in_range 128 191 b then rest else none

unfoldable pub from_utf8 : Bytes → Option Text
from_utf8 bytes = decode_from 0 0 0 bytes

-- the characters of a `String`
abbrev pub Chars : Text → Type 0
Chars = All (λ c. is_char c ≡ true)

pub as_bytes-Octets : (s : Text) → Chars s → Octets (as_bytes s)
unfolding as_bytes
as_bytes-Octets [] h = tt
as_bytes-Octets (c ∷ s) h =
    All-append (λ b. b < 256) (encode_char c) (as_bytes s) (first c h.0) (as_bytes-Octets s h.1)
  where
    first : (c : ℕ) → is_char c ≡ true → Octets (encode_char c)
    first c h = ground (arith, h)

pub as_bytes_ascii : (s : Text) → All (λ c. c < 128) s → as_bytes s ≡ s
unfolding as_bytes
as_bytes_ascii [] h = refl
as_bytes_ascii (c ∷ s) h = ground (arith, as_bytes_ascii s h.1)

-- the byte in the middle of a character, and the one at its end
middle :
    (long more v x : ℕ) (bytes : Bytes)
    → x < 64
    → decode_from long (suc (suc more)) v ((128 + x) ∷ bytes)
      ≡ decode_from long (suc more) (v * 64 + x) bytes
unfolding decode_from
middle long more v x bytes h =
    let e : 128 + x - 128 ≡ x = omega arith in
    let t : in_range 128 191 (128 + x) ≡ true = ground arith in rw (e, t) refl

ending :
    (long v x : ℕ) (bytes : Bytes)
    → x < 64
    → is_char (v * 64 + x) ≡ true
    → least long ≤ v * 64 + x
    → decode_from long 1 v ((128 + x) ∷ bytes) ≡ push_front (v * 64 + x) (decode_from 0 0 0 bytes)
unfolding decode_from
ending long v x bytes h c l =
    let e : 128 + x - 128 ≡ x = omega arith in
    let t : in_range 128 191 (128 + x) ≡ true = ground arith in
    let k : leb (least long) (v * 64 + x) ≡ true = ground (arith, l) in rw (e, t, c, k) refl

start_2 :
    (v : ℕ) (bytes : Bytes)
    → 2 ≤ v
    → v < 32
    → decode_from 0 0 0 ((192 + v) ∷ bytes) ≡ decode_from 1 1 v bytes
unfolding decode_from
start_2 v bytes l h =
    let e : 192 + v - 192 ≡ v = omega arith in
    let n : ltb (192 + v) 128 ≡ false = ground arith in
    let t : in_range 194 223 (192 + v) ≡ true = ground arith in rw (e, n, t) refl

start_3 :
    (v : ℕ) (bytes : Bytes)
    → v < 16
    → decode_from 0 0 0 ((224 + v) ∷ bytes) ≡ decode_from 2 2 v bytes
unfolding decode_from
start_3 v bytes h =
    let e : 224 + v - 224 ≡ v = omega arith in
    let n : ltb (224 + v) 128 ≡ false = ground arith in
    let k : in_range 194 223 (224 + v) ≡ false = ground arith in
    let t : in_range 224 239 (224 + v) ≡ true = ground arith in rw (e, n, k, t) refl

start_4 :
    (v : ℕ) (bytes : Bytes)
    → v < 5
    → decode_from 0 0 0 ((240 + v) ∷ bytes) ≡ decode_from 3 3 v bytes
unfolding decode_from
start_4 v bytes h =
    let e : 240 + v - 240 ≡ v = omega arith in
    let n : ltb (240 + v) 128 ≡ false = ground arith in
    let k : in_range 194 223 (240 + v) ≡ false = ground arith in
    let j : in_range 224 239 (240 + v) ≡ false = ground arith in
    let t : in_range 240 244 (240 + v) ≡ true = ground arith in rw (e, n, k, j, t) refl

-- one character in front
record Reads (c : ℕ) (rest front : Bytes) : Type 0 where
  reads : decode_from 0 0 0 (front ++ rest) ≡ push_front c (decode_from 0 0 0 rest)

ascii-Reads : (c : ℕ) (rest : Bytes) → c < 128 → Reads c rest (c ∷ [])
ascii-Reads c rest h = record { reads = unfold decode_from in (rw (test c h) refl) }
  where
    test : (c : ℕ) → c < 128 → ltb c 128 ≡ true
    test c h = ground arith

encode_char-Reads : (c : ℕ) (rest : Bytes) → is_char c ≡ true → Reads c rest (encode_char c)
encode_char-Reads c rest h =
    let top : c ≤ 1114111 = ground (arith, h) in
    if_cases (Reads c rest) (ltb c 128) _ _ (λ e. ascii-Reads c rest (ltb→lt c 128 e))
      (λ n1.
        if_cases (Reads c rest) (ltb c 2048) _ _ (λ e. two (ltb→lt c 2048 e) (ground (arith, n1)))
          (λ n2.
            if_cases (Reads c rest) (ltb c 65536) _ _
              (λ e. three (ltb→lt c 65536 e) (ground (arith, n2)))
              (λ n3. four top (ground (arith, n3)))))
  where
    two : c < 2048 → 128 ≤ c → Reads c rest ((192 + c / 64) ∷ (128 + c % 64) ∷ [])
    two u l =
        let e : c / 64 * 64 + c % 64 ≡ c = omega arith in
        record {
          reads =
              start_2 (c / 64) _ (omega arith) (omega arith)
              ∙ ending 1 (c / 64) (c % 64) rest (omega arith) (rw e h) (omega arith)
              ∙ ap (λ (x : ℕ). push_front x (decode_from 0 0 0 rest)) e;
        }

    three :
        c < 65536
        → 2048 ≤ c
        → Reads c rest ((224 + c / 4096) ∷ (128 + c / 64 % 64) ∷ (128 + c % 64) ∷ [])
    three u l =
        let e : c / 4096 * 64 + c / 64 % 64 ≡ c / 64 = omega arith in
        let f : c / 64 * 64 + c % 64 ≡ c = omega arith in
        record {
          reads =
              start_3 (c / 4096) _ (omega arith)
              ∙ middle 2 0 (c / 4096) (c / 64 % 64) _ (omega arith)
              ∙ ap (λ (x : ℕ). decode_from 2 1 x ((128 + c % 64) ∷ rest)) e
              ∙ ending 2 (c / 64) (c % 64) rest (omega arith) (rw f h) (omega arith)
              ∙ ap (λ (x : ℕ). push_front x (decode_from 0 0 0 rest)) f;
        }

    four :
        c ≤ 1114111
        → 65536 ≤ c
        → Reads c rest
            ((240 + c / 262144) ∷ (128 + c / 4096 % 64) ∷ (128 + c / 64 % 64) ∷ (128 + c % 64) ∷ [])
    four u l =
        let d : c / 262144 * 64 + c / 4096 % 64 ≡ c / 4096 = omega arith in
        let e : c / 4096 * 64 + c / 64 % 64 ≡ c / 64 = omega arith in
        let f : c / 64 * 64 + c % 64 ≡ c = omega arith in
        record {
          reads =
              start_4 (c / 262144) _ (omega arith)
              ∙ middle 3 1 (c / 262144) (c / 4096 % 64) _ (omega arith)
              ∙ ap (λ (x : ℕ). decode_from 3 2 x ((128 + c / 64 % 64) ∷ (128 + c % 64) ∷ rest)) d
              ∙ middle 3 0 (c / 4096) (c / 64 % 64) _ (omega arith)
              ∙ ap (λ (x : ℕ). decode_from 3 1 x ((128 + c % 64) ∷ rest)) e
              ∙ ending 3 (c / 64) (c % 64) rest (omega arith) (rw f h) (omega arith)
              ∙ ap (λ (x : ℕ). push_front x (decode_from 0 0 0 rest)) f;
        }

decoded : (s : Text) → Chars s → decode_from 0 0 0 (as_bytes s) ≡ some s
unfolding as_bytes
decoded [] h = unfold decode_from in refl
decoded (c ∷ s) h = (encode_char-Reads c (as_bytes s) h.0).reads ∙ ap (push_front c) (decoded s h.1)

pub from_utf8-as_bytes : (s : Text) → Chars s → from_utf8 (as_bytes s) ≡ some s
unfolding from_utf8
from_utf8-as_bytes s h = decoded s h
