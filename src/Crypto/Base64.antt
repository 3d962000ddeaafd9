-- ===== src/Crypto/Base64.antt =====
-- src/crypto.rs: base64 with the standard alphabet and padding, over bytes as numbers below 256. The
-- accumulator of the decoder is a `u32`, whose upper bits are shifted out.
use chonkline.Base.{
  ℕ, ◌+◌, ◌-◌, ◌*◌, ◌/◌, ◌%◌, ◌^◌, ◌<◌, ◌≡◌, refl, Bool, true, not, ◌&&◌, Option, none, some, [],
  ◌∷◌, retain, nat_beq, leb, ltb, in_range, if◌then◌else◌, Bytes, arith, ◌>>=◌,
}
use chonkline.Str.{is_ascii_whitespace}
use chonkline.Crypto.Compare.{Octets}

-- `B64[i]`
unfoldable pub b64_char : ℕ → ℕ
b64_char i =
    if ltb i 26
    then b'A' + i
    else if ltb i 52
    then b'a' + (i - 26)
    else if ltb i 62
    then b'0' + (i - 52)
    else if nat_beq i 62
    then b'+'
    else b'/'

-- the chunks of three, the last of one or two with its padding
unfoldable pub base64_encode : Bytes → Bytes
base64_encode [] = []
base64_encode (a ∷ []) =
    let n = a * 2 ^ 16 in b64_char (n / 2 ^ 18 % 64) ∷ b64_char (n / 2 ^ 12 % 64) ∷ b'=' ∷ b'=' ∷ []
base64_encode (a ∷ b ∷ []) =
    let n = a * 2 ^ 16 + b * 2 ^ 8 in
    b64_char (n / 2 ^ 18 % 64) ∷ b64_char (n / 2 ^ 12 % 64) ∷ b64_char (n / 2 ^ 6 % 64) ∷ b'=' ∷ []
base64_encode (a ∷ b ∷ c ∷ rest) =
    let n = a * 2 ^ 16 + b * 2 ^ 8 + c in
    b64_char (n / 2 ^ 18 % 64)
    ∷ b64_char (n / 2 ^ 12 % 64)
    ∷ b64_char (n / 2 ^ 6 % 64)
    ∷ b64_char (n % 64)
    ∷ base64_encode rest

unfoldable pub b64_val : ℕ → Option ℕ
b64_val c =
    if in_range b'A' b'Z' c
    then some (c - b'A')
    else if in_range b'a' b'z' c
    then some (c - b'a' + 26)
    else if in_range b'0' b'9' c
    then some (c - b'0' + 52)
    else if nat_beq c b'+'
    then some 62
    else if nat_beq c b'/'
    then some 63
    else none

abbrev emit : ℕ → Option Bytes → Option Bytes
emit byte none = none
emit byte (some out) = some (byte ∷ out)

abbrev shifted : ℕ → ℕ → ℕ
shifted acc v = (acc * 64 + v) % 2 ^ 32

-- the loop over the characters; a byte goes out when eight bits are there
unfoldable pub decode_loop : ℕ → ℕ → Bytes → Option Bytes
decode_loop acc nbits [] = some []
decode_loop acc nbits (c ∷ s) = b64_val c >>= λ v.
    let more = decode_loop (shifted acc v) (nbits + 6) s in
    let next = decode_loop (shifted acc v) (nbits + 6 - 8) s in
    if leb 8 (nbits + 6) then emit (shifted acc v / 2 ^ (nbits + 6 - 8) % 256) next else more

-- what the decoder passes over
abbrev pub is_data : ℕ → Bool
is_data c = not (nat_beq c b'=') && not (is_ascii_whitespace c)

unfoldable pub base64_decode : Bytes → Option Bytes
base64_decode s = decode_loop 0 0 (retain is_data s)

b64_val-b64_char : (i : ℕ) → i < 64 → b64_val (b64_char i) ≡ some i
unfolding b64_val b64_char
b64_val-b64_char i h = ground arith

b64_char-is_data : (i : ℕ) → i < 64 → is_data (b64_char i) ≡ true
unfolding b64_char is_ascii_whitespace
b64_char-is_data i h = ground arith

byte_1 : (acc a b : ℕ) → b < 64 → shifted (shifted acc a) b / 2 ^ 4 % 256 ≡ (a * 4 + b / 16) % 256
byte_1 acc a b h = omega arith

byte_2 : (acc b c : ℕ) → c < 64 → shifted (shifted acc b) c / 2 ^ 2 % 256 ≡ (b * 16 + c / 4) % 256
byte_2 acc b c h = omega arith

byte_3 : (acc c d : ℕ) → d < 64 → shifted (shifted acc c) d / 2 ^ 0 % 256 ≡ (c * 64 + d) % 256
byte_3 acc c d h = omega arith

two :
    (acc a b : ℕ) (rest : Bytes)
    → a < 64
    → b < 64
    → decode_loop acc 0 (b64_char a ∷ b64_char b ∷ rest)
      ≡ emit ((a * 4 + b / 16) % 256) (decode_loop (shifted (shifted acc a) b) 4 rest)
unfolding decode_loop
two acc a b rest h k = rw (b64_val-b64_char a h, b64_val-b64_char b k, byte_1 acc a b k) refl

third :
    (acc b c : ℕ) (rest : Bytes)
    → c < 64
    → decode_loop (shifted acc b) 4 (b64_char c ∷ rest)
      ≡ emit ((b * 16 + c / 4) % 256) (decode_loop (shifted (shifted acc b) c) 2 rest)
unfolding decode_loop
third acc b c rest h = rw (b64_val-b64_char c h, byte_2 acc b c h) refl

fourth :
    (acc c d : ℕ) (rest : Bytes)
    → d < 64
    → decode_loop (shifted acc c) 2 (b64_char d ∷ rest)
      ≡ emit ((c * 64 + d) % 256) (decode_loop (shifted (shifted acc c) d) 0 rest)
unfolding decode_loop
fourth acc c d rest h = rw (b64_val-b64_char d h, byte_3 acc c d h) refl

decoded :
    (acc : ℕ) (bytes : Bytes)
    → Octets bytes
    → decode_loop acc 0 (retain is_data (base64_encode bytes)) ≡ some bytes
unfolding base64_encode
decoded acc [] h = unfold decode_loop in refl
decoded acc (a ∷ []) h =
    let n = a * 2 ^ 16 in
    let v = n / 2 ^ 18 % 64 in
    let w = n / 2 ^ 12 % 64 in
    let e : (v * 4 + w / 16) % 256 ≡ a = omega arith in
    rw
      (
        b64_char-is_data v (omega arith),
        b64_char-is_data w (omega arith),
        two acc v w [] (omega arith) (omega arith),
        e,
      )
      (unfold decode_loop in refl)
decoded acc (a ∷ b ∷ []) h =
    let n = a * 2 ^ 16 + b * 2 ^ 8 in
    let v = n / 2 ^ 18 % 64 in
    let w = n / 2 ^ 12 % 64 in
    let x = n / 2 ^ 6 % 64 in
    let e : (v * 4 + w / 16) % 256 ≡ a = omega arith in
    let f : (w * 16 + x / 4) % 256 ≡ b = omega arith in
    rw
      (
        b64_char-is_data v (omega arith),
        b64_char-is_data w (omega arith),
        b64_char-is_data x (omega arith),
        two acc v w (b64_char x ∷ []) (omega arith) (omega arith),
        third (shifted acc v) w x [] (omega arith),
        e,
        f,
      )
      (unfold decode_loop in refl)
decoded acc (a ∷ b ∷ c ∷ rest) h =
    let n = a * 2 ^ 16 + b * 2 ^ 8 + c in
    let v = n / 2 ^ 18 % 64 in
    let w = n / 2 ^ 12 % 64 in
    let x = n / 2 ^ 6 % 64 in
    let y = n % 64 in
    let e : (v * 4 + w / 16) % 256 ≡ a = omega arith in
    let f : (w * 16 + x / 4) % 256 ≡ b = omega arith in
    let g : (x * 64 + y) % 256 ≡ c = omega arith in
    let tail = retain is_data (base64_encode rest) in
    rw
      (
        b64_char-is_data v (omega arith),
        b64_char-is_data w (omega arith),
        b64_char-is_data x (omega arith),
        b64_char-is_data y (omega arith),
        two acc v w (b64_char x ∷ b64_char y ∷ tail) (omega arith) (omega arith),
        third (shifted acc v) w x (b64_char y ∷ tail) (omega arith),
        fourth (shifted (shifted acc v) w) x y tail (omega arith),
        decoded (shifted (shifted (shifted (shifted acc v) w) x) y) rest h.1.1.1,
        e,
        f,
        g,
      )
      refl

-- Decoding gives back the bytes that were encoded, whatever their number.
pub base64_decode-base64_encode :
    (bytes : Bytes) → Octets bytes → base64_decode (base64_encode bytes) ≡ some bytes
unfolding base64_decode
base64_decode-base64_encode bytes h = decoded 0 bytes h
