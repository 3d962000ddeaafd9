-- ===== src/Crypto/Sha256/Sizes.antt =====
-- src/crypto.rs: how many bytes the routines give.
use chonkline.Base.{
  ℕ, zero, suc, ◌+◌, ◌-◌, ◌*◌, ◌/◌, ◌%◌, ◌^◌, ◌≤◌, ◌<◌, ◌≡◌, refl, [], ◌∷◌, ◌++◌, length, take, ltb,
  nat_beq, length-append, Bytes, All-append, arith, Bool-cases, inl, inr, if_cases,
}
use chonkline.Crypto.Compare.{Octets, xor_bits-lt, bound_8}
use chonkline.Crypto.Sha256.{
  sha256, blocks, out_bytes, padded, pad_zeros, length_bytes, xor_bytes, hmac_sha256, pbkdf2_rounds,
  pbkdf2_loop, pbkdf2_sha256, to_be_bytes, Words, initial,
}

-- so many bytes
pub record IsSized (n : ℕ) (s : Bytes) : Type 0 where
  pub size : length s ≡ n
  pub octets : Octets s

to_be_bytes-IsSized : (n : ℕ) → IsSized 4 (to_be_bytes n)
to_be_bytes-IsSized n = record {
  size = refl;
  octets = (omega arith, (omega arith, (omega arith, (omega arith, tt))));
}

append-IsSized : (m n : ℕ) (s t : Bytes) → IsSized m s → IsSized n t → IsSized (m + n) (s ++ t)
append-IsSized m n s t h k = record {
  size = omega (arith, length-append s t, h.size, k.size);
  octets = All-append (λ b. b < 256) s t h.octets k.octets;
}

out_bytes-IsSized : (v : Words) → IsSized 32 (out_bytes v)
out_bytes-IsSized v =
    word v.a
      (word v.b (word v.c (word v.d (word v.e (word v.f (word v.g (to_be_bytes-IsSized v.h)))))))
  where
    word : (w : ℕ) {n : ℕ} {s : Bytes} → IsSized n s → IsSized (4 + n) (to_be_bytes w ++ s)
    word w {n} {s} h = append-IsSized 4 n (to_be_bytes w) s (to_be_bytes-IsSized w) h

pub sha256-IsSized : (msg : Bytes) → IsSized 32 (sha256 msg)
unfolding sha256
sha256-IsSized msg =
    let bytes = padded msg in out_bytes-IsSized (blocks (length bytes / 64) bytes initial)

pub hmac_sha256-IsSized : (key msg : Bytes) → IsSized 32 (hmac_sha256 key msg)
unfolding hmac_sha256
hmac_sha256-IsSized key msg = search sha256-IsSized

-- 64 zeroes are enough for the padding, whose last block then has room for the length alone
pad_zeros-length :
    (fuel : ℕ) (bytes : Bytes)
    → (56 + 64 - length bytes % 64) % 64 ≤ fuel
    → length (pad_zeros fuel bytes) % 64 ≡ 56
unfolding pad_zeros
pad_zeros-length zero bytes h = omega (arith, h)
pad_zeros-length (suc fuel) bytes h = elim (Bool-cases (nat_beq (length bytes % 64) 56)) [
  | inl e ↦ rw e (ground (arith, e))
  | inr e ↦ rw e (
      pad_zeros-length fuel (bytes ++ 0 ∷ [])
        (rw (length-append bytes (0 ∷ [])) (ground (arith, e, h))))
]

pub length-padded : (msg : Bytes) → length (padded msg) % 64 ≡ 0
unfolding padded
length-padded msg =
    let z = pad_zeros-length 64 (msg ++ 128 ∷ []) (omega arith) in
    rw (length-append (pad_zeros 64 (msg ++ 128 ∷ [])) (length_bytes (length msg)))
      (omega (arith, z))

xor_bytes-IsSized : (n : ℕ) (s t : Bytes) → IsSized n s → IsSized n (xor_bytes s t)
unfolding xor_bytes
xor_bytes-IsSized n [] t h = h
xor_bytes-IsSized n (x ∷ s) [] h = h
xor_bytes-IsSized n (x ∷ s) (y ∷ t) h =
    let rest = xor_bytes-IsSized (length s) s t (record { size = refl; octets = h.octets.1 }) in
    record {
      size = omega (arith, rest.size, h.size);
      octets = (omega (arith, xor_bits-lt 8 x y, bound_8), rest.octets);
    }

pbkdf2_rounds-IsSized :
    (n : ℕ) (pass u t : Bytes) → IsSized 32 t → IsSized 32 (pbkdf2_rounds n pass u t)
unfolding pbkdf2_rounds
pbkdf2_rounds-IsSized zero pass u t h = h
pbkdf2_rounds-IsSized (suc n) pass u t h =
    let u' = hmac_sha256 pass u in
    pbkdf2_rounds-IsSized n pass u' (xor_bytes t u') (xor_bytes-IsSized 32 t u' h)

-- at least so many bytes
record IsFilled (n : ℕ) (s : Bytes) : Type 0 where
  pub size : n ≤ length s
  pub octets : Octets s

pbkdf2_loop-IsFilled :
    (fuel : ℕ) (pass salt : Bytes) (iters dk_len index : ℕ) (out : Bytes)
    → Octets out
    → dk_len < length out + 32 * fuel + 1
    → IsFilled dk_len (pbkdf2_loop fuel pass salt iters dk_len index out)
unfolding pbkdf2_loop
pbkdf2_loop-IsFilled zero pass salt iters dk_len index out o h = record {
  size = omega arith;
  octets = o;
}
pbkdf2_loop-IsFilled (suc fuel) pass salt iters dk_len index out o h =
    let u = hmac_sha256 pass (salt ++ to_be_bytes index) in
    let t = pbkdf2_rounds (iters - 1) pass u u in
    let k =
      pbkdf2_rounds-IsSized (iters - 1) pass u u
        (hmac_sha256-IsSized pass (salt ++ to_be_bytes index)) in
    if_cases (IsFilled dk_len) (ltb (length out) dk_len) _ out
      (λ e.
        pbkdf2_loop-IsFilled fuel pass salt iters dk_len ((index + 1) % 2 ^ 32) (out ++ t)
          (All-append (λ b. b < 256) out t o k.octets)
          (omega (arith, length-append out t, k.size, h)))
      (λ e. record { size = ground (arith, e); octets = o })

take-IsSized : (n : ℕ) (s : Bytes) → IsFilled n s → IsSized n (take n s)
take-IsSized zero s h = record { size = refl; octets = tt }
take-IsSized (suc n) [] h = absurd (omega (arith, h.size))
take-IsSized (suc n) (x ∷ s) h =
    let rest = take-IsSized n s (record { size = omega (arith, h.size); octets = h.octets.1 }) in
    record { size = omega (arith, rest.size); octets = (h.octets.0, rest.octets) }

-- The derived key has exactly the length that is asked for, and consists of bytes: the loop ends, and
-- its fuel is enough.
pub pbkdf2_sha256-IsSized :
    (pass salt : Bytes) (iters dk_len : ℕ) → IsSized dk_len (pbkdf2_sha256 pass salt iters dk_len)
unfolding pbkdf2_sha256
pbkdf2_sha256-IsSized pass salt iters dk_len =
    take-IsSized dk_len _
      (pbkdf2_loop-IsFilled (dk_len / 32 + 1) pass salt iters dk_len 1 [] tt (omega arith))
