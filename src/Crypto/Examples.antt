-- ===== src/Crypto/Examples.antt =====
-- src/crypto.rs: the encodings at concrete bytes, with the vectors of
-- RFC 4648, FIPS 180-4 and RFC 4231.
use chonkline.Base.{◌≡◌, ◌↔◌, refl, true, some, [], ◌∷◌, codes, arith, Bytes}
use chonkline.Crypto.Base64.{base64_encode, base64_decode, b64_char, base64_decode-base64_encode}
use chonkline.Crypto.Compare.{constant_time_eq, constant_time_eq_iff}
use chonkline.Crypto.Hex.{hex, hex_char}
use chonkline.Crypto.Sha256.{sha256, hmac_sha256, pbkdf2_sha256, xor_bytes}
use chonkline.Crypto.Sha256.Sizes.{IsSized, pbkdf2_sha256-IsSized}

encodes_vectors :
    (base64_encode (codes "foobar") ≡ codes "Zm9vYmFy")
    × (base64_encode (codes "fo") ≡ codes "Zm8=")
unfolding base64_encode b64_char
encodes_vectors = (refl, refl)

prints_hex : hex (0 ∷ 171 ∷ []) ≡ codes "00ab"
unfolding hex hex_char
prints_hex = refl

base64_decode-base64_encode_example :
    base64_decode (base64_encode (codes "foob")) ≡ some (codes "foob")
base64_decode-base64_encode_example =
    base64_decode-base64_encode (codes "foob")
      (omega arith, (omega arith, (omega arith, (omega arith, tt))))

abbrev one_two : Bytes
one_two = 1 ∷ 2 ∷ []

abbrev one_three : Bytes
one_three = 1 ∷ 3 ∷ []

constant_time_eq_iff_example : (constant_time_eq one_two one_three ≡ true) ↔ (one_two ≡ one_three)
constant_time_eq_iff_example =
    constant_time_eq_iff one_two one_three (omega arith, (omega arith, tt))
      (omega arith, (omega arith, tt))

hashes_abc :
    sha256 (codes "abc")
    ≡ 186 ∷ 120 ∷ 22 ∷ 191 ∷ 143 ∷ 1 ∷ 207 ∷ 234 ∷ 65 ∷ 65 ∷ 64 ∷ 222 ∷ 93 ∷ 174 ∷ 34 ∷ 35 ∷ 176 ∷ 3
      ∷ 97 ∷ 163 ∷ 150 ∷ 23 ∷ 122 ∷ 156 ∷ 180 ∷ 16 ∷ 255 ∷ 97 ∷ 242 ∷ 0 ∷ 21 ∷ 173 ∷ []
unfolding sha256
hashes_abc = refl

authenticates_jefe :
    hmac_sha256 (codes "Jefe") (codes "what do ya want for nothing?")
    ≡ 91 ∷ 220 ∷ 193 ∷ 70 ∷ 191 ∷ 96 ∷ 117 ∷ 78 ∷ 106 ∷ 4 ∷ 36 ∷ 38 ∷ 8 ∷ 149 ∷ 117 ∷ 199 ∷ 90 ∷ 0
      ∷ 63 ∷ 8 ∷ 157 ∷ 39 ∷ 57 ∷ 131 ∷ 157 ∷ 236 ∷ 88 ∷ 185 ∷ 100 ∷ 236 ∷ 56 ∷ 67 ∷ []
unfolding hmac_sha256
authenticates_jefe = refl

derives_two_rounds :
    pbkdf2_sha256 (codes "password") (codes "salt") 2 40
    ≡ 174 ∷ 77 ∷ 12 ∷ 149 ∷ 175 ∷ 107 ∷ 70 ∷ 211 ∷ 45 ∷ 10 ∷ 223 ∷ 249 ∷ 40 ∷ 240 ∷ 109 ∷ 208 ∷ 42
      ∷ 48 ∷ 63 ∷ 142 ∷ 243 ∷ 194 ∷ 81 ∷ 223 ∷ 214 ∷ 226 ∷ 216 ∷ 90 ∷ 149 ∷ 71 ∷ 76 ∷ 67 ∷ 131 ∷ 6
      ∷ 81 ∷ 175 ∷ 203 ∷ 92 ∷ 134 ∷ 47 ∷ []
unfolding pbkdf2_sha256 xor_bytes hmac_sha256
derives_two_rounds = refl

pbkdf2_sha256-IsSized_example : IsSized 40 (pbkdf2_sha256 (codes "password") (codes "salt") 2 40)
pbkdf2_sha256-IsSized_example = pbkdf2_sha256-IsSized (codes "password") (codes "salt") 2 40
