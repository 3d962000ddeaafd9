-- ===== src/Crypto/Hex.antt =====
-- src/crypto.rs: bytes as two lower-case hexadecimal digits each, and what the digits mean.
use chonkline.Base.{
  ℕ, ◌+◌, ◌-◌, ◌*◌, ◌/◌, ◌%◌, ◌<◌, ◌≡◌, refl, [], ◌∷◌, ltb, if◌then◌else◌, Bytes, arith,
}
use chonkline.Crypto.Compare.{Octets}

-- `HEXCHARS[i]`
unfoldable pub hex_char : ℕ → ℕ
hex_char i = if ltb i 10 then b'0' + i else b'a' + (i - 10)

unfoldable pub hex : Bytes → Bytes
hex [] = []
hex (b ∷ rest) = hex_char (b / 16) ∷ hex_char (b % 16) ∷ hex rest

-- the value of a digit, and of a pair
unfoldable pub digit : ℕ → ℕ
digit c = if ltb c b'a' then c - b'0' else c - b'a' + 10

unfoldable pub octets : Bytes → Bytes
octets [] = []
octets (c ∷ []) = []
octets (c ∷ d ∷ s) = (digit c * 16 + digit d) ∷ octets s

digit-hex_char : (i : ℕ) → i < 16 → digit (hex_char i) ≡ i
unfolding digit hex_char
digit-hex_char i h = ground arith

-- Reading the digits two by two gives back the bytes: two byte strings never print alike.
pub octets-hex : (bytes : Bytes) → Octets bytes → octets (hex bytes) ≡ bytes
unfolding octets hex
octets-hex [] h = refl
octets-hex (b ∷ rest) h =
    let high = digit-hex_char (b / 16) (omega (arith, h.0)) in
    let low = digit-hex_char (b % 16) (omega arith) in
    let whole : b / 16 * 16 + b % 16 ≡ b = omega arith in
    rw (high, low, whole, octets-hex rest h.1) refl
