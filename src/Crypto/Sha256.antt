-- ===== src/Crypto/Sha256.antt =====
-- src/crypto.rs: SHA-256, HMAC and PBKDF2. A `u32` is a number under 2 ^ 32 whose sums wrap, an array is
-- a list; the schedule `w` is kept with its latest word in front.
pub mod Sizes
use chonkline.Base.{
  ℕ, zero, suc, ◌+◌, ◌-◌, ◌*◌, ◌/◌, ◌%◌, ◌^◌, List, [], ◌∷◌, ◌++◌, length, take, drop, replicate,
  reverse, get_or, nat_beq, ltb, if◌then◌else◌, Bytes,
}
use Prim.Native.Nat.{bit_and, bit_xor}
use chonkline.Crypto.Compare.{xor_bits}

pub record Words : Type 0 where
  pub a : ℕ
  pub b : ℕ
  pub c : ℕ
  pub d : ℕ
  pub e : ℕ
  pub f : ℕ
  pub g : ℕ
  pub h : ℕ

-- `H0`
abbrev pub initial : Words
initial = record {
  a = 1779033703;
  b = 3144134277;
  c = 1013904242;
  d = 2773480762;
  e = 1359893119;
  f = 2600822924;
  g = 528734635;
  h = 1541459225;
}

-- `K`
abbrev pub round_constants : List ℕ
round_constants =
    1116352408 ∷ 1899447441 ∷ 3049323471 ∷ 3921009573 ∷ 961987163 ∷ 1508970993 ∷ 2453635748
    ∷ 2870763221 ∷ 3624381080 ∷ 310598401 ∷ 607225278 ∷ 1426881987 ∷ 1925078388 ∷ 2162078206
    ∷ 2614888103 ∷ 3248222580 ∷ 3835390401 ∷ 4022224774 ∷ 264347078 ∷ 604807628 ∷ 770255983
    ∷ 1249150122 ∷ 1555081692 ∷ 1996064986 ∷ 2554220882 ∷ 2821834349 ∷ 2952996808 ∷ 3210313671
    ∷ 3336571891 ∷ 3584528711 ∷ 113926993 ∷ 338241895 ∷ 666307205 ∷ 773529912 ∷ 1294757372
    ∷ 1396182291 ∷ 1695183700 ∷ 1986661051 ∷ 2177026350 ∷ 2456956037 ∷ 2730485921 ∷ 2820302411
    ∷ 3259730800 ∷ 3345764771 ∷ 3516065817 ∷ 3600352804 ∷ 4094571909 ∷ 275423344 ∷ 430227734
    ∷ 506948616 ∷ 659060556 ∷ 883997877 ∷ 958139571 ∷ 1322822218 ∷ 1537002063 ∷ 1747873779
    ∷ 1955562222 ∷ 2024104815 ∷ 2227730452 ∷ 2361852424 ∷ 2428436474 ∷ 2756734187 ∷ 3204031479
    ∷ 3329325298 ∷ []

abbrev pub wrapping_add : ℕ → ℕ → ℕ
wrapping_add x y = (x + y) % 2 ^ 32

abbrev pub rotate_right : ℕ → ℕ → ℕ
rotate_right n x = x / 2 ^ n + (x % 2 ^ n) * 2 ^ (32 - n)

abbrev pub shift_right : ℕ → ℕ → ℕ
shift_right n x = x / 2 ^ n

abbrev pub xor3 : ℕ → ℕ → ℕ → ℕ
xor3 x y z = bit_xor (bit_xor x y) z

-- `n.to_be_bytes()` on `u32`
abbrev pub to_be_bytes : ℕ → Bytes
to_be_bytes n = n / 2 ^ 24 % 256 ∷ n / 2 ^ 16 % 256 ∷ n / 2 ^ 8 % 256 ∷ n % 256 ∷ []

abbrev pub from_be_bytes : ℕ → ℕ → ℕ → ℕ → ℕ
from_be_bytes p q r s = p * 2 ^ 24 + q * 2 ^ 16 + r * 2 ^ 8 + s

-- zeroes until the last block has 56 bytes, within the fuel
unfoldable pub pad_zeros : ℕ → Bytes → Bytes
pad_zeros zero bytes = bytes
pad_zeros (suc fuel) bytes =
    let more = pad_zeros fuel (bytes ++ 0 ∷ []) in
    if nat_beq (length bytes % 64) 56 then bytes else more

-- the length in bits, as a `u64`
abbrev pub length_bytes : ℕ → Bytes
length_bytes n =
    let bits = n * 8 % 2 ^ 64 in to_be_bytes (bits / 2 ^ 32) ++ to_be_bytes (bits % 2 ^ 32)

unfoldable pub padded : Bytes → Bytes
padded msg = pad_zeros 64 (msg ++ 128 ∷ []) ++ length_bytes (length msg)

-- the words of one block, the latest in front of `w`
unfoldable pub block_words : Bytes → List ℕ → List ℕ
block_words (p ∷ q ∷ r ∷ s ∷ rest) w = block_words rest (from_be_bytes p q r s ∷ w)
block_words _ w = w

abbrev pub next_word : List ℕ → ℕ
next_word w =
    let x = get_or w 14 0 in
    let y = get_or w 1 0 in
    let s0 = xor3 (rotate_right 7 x) (rotate_right 18 x) (shift_right 3 x) in
    let s1 = xor3 (rotate_right 17 y) (rotate_right 19 y) (shift_right 10 y) in
    wrapping_add (wrapping_add (wrapping_add (get_or w 15 0) s0) (get_or w 6 0)) s1

unfoldable pub extend : ℕ → List ℕ → List ℕ
extend zero w = w
extend (suc n) w = extend n (next_word w ∷ w)

abbrev pub round : ℕ → ℕ → Words → Words
round k w v =
    let s1 = xor3 (rotate_right 6 v.e) (rotate_right 11 v.e) (rotate_right 25 v.e) in
    let ch = bit_xor (bit_and v.e v.f) (bit_and (2 ^ 32 - 1 - v.e) v.g) in
    let t1 = wrapping_add (wrapping_add (wrapping_add (wrapping_add v.h s1) ch) k) w in
    let s0 = xor3 (rotate_right 2 v.a) (rotate_right 13 v.a) (rotate_right 22 v.a) in
    let maj = xor3 (bit_and v.a v.b) (bit_and v.a v.c) (bit_and v.b v.c) in
    let t2 = wrapping_add s0 maj in
    record {
      a = wrapping_add t1 t2;
      b = v.a;
      c = v.b;
      d = v.c;
      e = wrapping_add v.d t1;
      f = v.e;
      g = v.f;
      h = v.g;
    }

unfoldable pub rounds : List ℕ → List ℕ → Words → Words
rounds (k ∷ ks) (w ∷ ws) v = rounds ks ws (round k w v)
rounds _ _ v = v

abbrev pub add_words : Words → Words → Words
add_words x y = record {
  a = wrapping_add x.a y.a;
  b = wrapping_add x.b y.b;
  c = wrapping_add x.c y.c;
  d = wrapping_add x.d y.d;
  e = wrapping_add x.e y.e;
  f = wrapping_add x.f y.f;
  g = wrapping_add x.g y.g;
  h = wrapping_add x.h y.h;
}

unfoldable pub compress : Bytes → Words → Words
unfolding block_words extend rounds
compress block v =
    add_words v (rounds round_constants (reverse (extend 48 (block_words block []))) v)

-- `chunks_exact`: so many blocks of 64 bytes
unfoldable pub blocks : ℕ → Bytes → Words → Words
unfolding compress
blocks zero bytes v = v
blocks (suc n) bytes v = blocks n (drop 64 bytes) (compress (take 64 bytes) v)

abbrev pub out_bytes : Words → Bytes
out_bytes v =
    to_be_bytes v.a
    ++ (to_be_bytes v.b
        ++ (to_be_bytes v.c
            ++ (to_be_bytes v.d
                ++ (to_be_bytes v.e ++ (to_be_bytes v.f ++ (to_be_bytes v.g ++ to_be_bytes v.h))))))

unfoldable pub sha256 : Bytes → Bytes
unfolding padded pad_zeros blocks
sha256 msg = let bytes = padded msg in out_bytes (blocks (length bytes / 64) bytes initial)

-- `a[i] ^= b[i]` along the first list
unfoldable pub xor_bytes : Bytes → Bytes → Bytes
unfolding xor_bits
xor_bytes [] ys = []
xor_bytes (x ∷ xs) [] = x ∷ xs
xor_bytes (x ∷ xs) (y ∷ ys) = xor_bits 8 x y ∷ xor_bytes xs ys

-- the key in a block of zeroes
abbrev pub key_block : Bytes → Bytes
key_block key =
    let k = if ltb 64 (length key) then sha256 key else key in k ++ replicate (64 - length k) 0

unfoldable pub hmac_sha256 : Bytes → Bytes → Bytes
unfolding sha256 xor_bytes
hmac_sha256 key msg =
    let k = key_block key in
    let inner_hash = sha256 (xor_bytes (replicate 64 54) k ++ msg) in
    sha256 (xor_bytes (replicate 64 92) k ++ inner_hash)

-- the rounds of one block after the first, with `u` and `t`
unfoldable pub pbkdf2_rounds : ℕ → Bytes → Bytes → Bytes → Bytes
pbkdf2_rounds zero pass u t = t
pbkdf2_rounds (suc n) pass u t =
    let u' = hmac_sha256 pass u in pbkdf2_rounds n pass u' (xor_bytes t u')

-- the blocks from `index` on until there are `dk_len` bytes, within the fuel
unfoldable pub pbkdf2_loop : ℕ → Bytes → Bytes → ℕ → ℕ → ℕ → Bytes → Bytes
unfolding pbkdf2_rounds
pbkdf2_loop zero pass salt iters dk_len index out = out
pbkdf2_loop (suc fuel) pass salt iters dk_len index out =
    let u = hmac_sha256 pass (salt ++ to_be_bytes index) in
    let t = pbkdf2_rounds (iters - 1) pass u u in
    let more = pbkdf2_loop fuel pass salt iters dk_len ((index + 1) % 2 ^ 32) (out ++ t) in
    if ltb (length out) dk_len then more else out

unfoldable pub pbkdf2_sha256 : Bytes → Bytes → ℕ → ℕ → Bytes
unfolding pbkdf2_loop
pbkdf2_sha256 pass salt iters dk_len =
    take dk_len (pbkdf2_loop (dk_len / 32 + 1) pass salt iters dk_len 1 [])
