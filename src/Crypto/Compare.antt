-- ===== src/Crypto/Compare.antt =====
-- src/crypto.rs: the comparison that looks at every byte. The operators on `u8` are bitwise, from the
-- lowest bit on.
use chonkline.Base.{
  ℕ, zero, suc, ◌+◌, ◌*◌, ◌/◌, ◌%◌, ◌<◌, ◌≡◌, ◌↔◌, refl, Bool, true, false, not, [], ◌∷◌, length,
  nat_beq, if◌then◌else◌, Bytes, All, arith, max,
}

-- `a ^ b` and `a | b` on `w` bits
unfoldable pub xor_bits : ℕ → ℕ → ℕ → ℕ
xor_bits zero a b = 0
xor_bits (suc w) a b = (a + b) % 2 + 2 * xor_bits w (a / 2) (b / 2)

unfoldable pub or_bits : ℕ → ℕ → ℕ → ℕ
or_bits zero a b = 0
or_bits (suc w) a b = max (a % 2) (b % 2) + 2 * or_bits w (a / 2) (b / 2)

-- the loop, for slices of one length
unfoldable pub diff_loop : ℕ → Bytes → Bytes → ℕ
diff_loop diff [] ys = diff
diff_loop diff (x ∷ xs) [] = diff
diff_loop diff (x ∷ xs) (y ∷ ys) = diff_loop (or_bits 8 diff (xor_bits 8 x y)) xs ys

unfoldable pub constant_time_eq : Bytes → Bytes → Bool
constant_time_eq a b =
    if not (nat_beq (length a) (length b)) then false else nat_beq (diff_loop 0 a b) 0

-- 2 ^ w, as a sum
unfoldable pub bound : ℕ → ℕ
bound zero = 1
bound (suc w) = bound w + bound w

xor_bits-eq : (w a b : ℕ) → a < bound w → b < bound w → xor_bits w a b ≡ 0 → a ≡ b
unfolding xor_bits bound
xor_bits-eq zero a b h k e = omega arith
xor_bits-eq (suc w) a b h k e =
    let half : a / 2 ≡ b / 2 =
      xor_bits-eq w (a / 2) (b / 2) (omega arith) (omega arith) (omega arith) in
    omega arith

xor_bits_self : (w a : ℕ) → xor_bits w a a ≡ 0
unfolding xor_bits
xor_bits_self zero a = refl
xor_bits_self (suc w) a = omega (arith, xor_bits_self w (a / 2))

pub xor_bits-lt : (w a b : ℕ) → xor_bits w a b < bound w
unfolding xor_bits bound
xor_bits-lt zero a b = omega arith
xor_bits-lt (suc w) a b = omega (arith, xor_bits-lt w (a / 2) (b / 2))

or_bits-lt : (w a b : ℕ) → or_bits w a b < bound w
unfolding or_bits bound
or_bits-lt zero a b = omega arith
or_bits-lt (suc w) a b = omega (arith, or_bits-lt w (a / 2) (b / 2))

or_bits-zero : (w a b : ℕ) → a < bound w → b < bound w → or_bits w a b ≡ 0 → (a ≡ 0) × (b ≡ 0)
unfolding or_bits bound
or_bits-zero zero a b h k e = (omega arith, omega arith)
or_bits-zero (suc w) a b h k e =
    let (p, q) = or_bits-zero w (a / 2) (b / 2) (omega arith) (omega arith) (omega arith) in
    (omega arith, omega arith)

or_bits_none : (w : ℕ) → or_bits w 0 0 ≡ 0
unfolding or_bits
or_bits_none zero = refl
or_bits_none (suc w) = omega (arith, or_bits_none w)

abbrev pub Octets : Bytes → Type 0
Octets = All (λ b. b < 256)

pub bound_8 : bound 8 ≡ 256
unfolding bound
bound_8 = refl

diff_loop-zero :
    (diff : ℕ) (xs ys : Bytes)
    → diff < bound 8
    → Octets xs
    → Octets ys
    → length xs ≡ length ys
    → diff_loop diff xs ys ≡ 0
    → (diff ≡ 0) × (xs ≡ ys)
unfolding diff_loop
diff_loop-zero diff [] [] d h k n e = (e, refl)
diff_loop-zero diff [] (y ∷ ys) d h k n e = absurd (omega arith)
diff_loop-zero diff (x ∷ xs) [] d h k n e = absurd (omega arith)
diff_loop-zero diff (x ∷ xs) (y ∷ ys) d h k n e =
    let (z, same) =
      diff_loop-zero (or_bits 8 diff (xor_bits 8 x y)) xs ys (or_bits-lt 8 diff (xor_bits 8 x y))
        h.1 k.1 (omega arith) e in
    let (p, q) = or_bits-zero 8 diff (xor_bits 8 x y) d (xor_bits-lt 8 x y) z in
    let first = xor_bits-eq 8 x y (omega (arith, bound_8, h.0)) (omega (arith, bound_8, k.0)) q in
    (p, rw (first, same) refl)

diff_loop_self : (xs : Bytes) → diff_loop 0 xs xs ≡ 0
unfolding diff_loop
diff_loop_self [] = refl
diff_loop_self (x ∷ xs) = rw (xor_bits_self 8 x, or_bits_none 8) (diff_loop_self xs)

-- The comparison accepts two byte strings exactly when they are equal.
pub constant_time_eq_iff :
    (a b : Bytes) → Octets a → Octets b → (constant_time_eq a b ≡ true) ↔ (a ≡ b)
unfolding constant_time_eq
constant_time_eq_iff a b h k = (
  λ e.
      let n : length a ≡ length b = ground (arith, e) in
      let z : diff_loop 0 a b ≡ 0 = ground (arith, e) in
      (diff_loop-zero 0 a b (omega (arith, bound_8)) h k n z).1,
  λ same. rw (← same) (rw (diff_loop_self a) (ground arith)),
)
