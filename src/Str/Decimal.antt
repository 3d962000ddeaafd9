-- ===== src/Str/Decimal.antt =====
-- Printing and parsing `u64` in base ten.
use chonkline.Base.{
  ℕ, zero, suc, ◌+◌, ◌-◌, ◌*◌, ◌/◌, ◌%◌, ◌^◌, ◌≤◌, ◌<◌, ◌≡◌, [], ◌∷◌, nat_beq, ltb, in_range,
  if◌then◌else◌, Text, All, arith, Option, none, some, ◌∙◌, length, Bool-cases, inl, inr, ltb→lt,
}
use chonkline.Str.Split.{Without}

-- the digits in front of `rest`, with fuel
unfoldable pub digits_onto : ℕ → ℕ → Text → Text
digits_onto zero n rest = rest
digits_onto (suc f) n rest =
    let more = digits_onto f (n / 10) ((b'0' + n % 10) ∷ rest) in
    if ltb n 10 then (b'0' + n) ∷ rest else more

-- `n.to_string()`: more than enough fuel for any number
unfoldable pub to_decimal : ℕ → Text
unfolding digits_onto
to_decimal n = digits_onto (suc n) n []

-- digits after the value read so far, which must not pass `limit`
unfoldable pub read_digits : ℕ → ℕ → Text → Option ℕ
read_digits limit n [] = some n
read_digits limit n (c ∷ s) =
    let value = n * 10 + (c - b'0') in
    let rest = read_digits limit value s in
    if in_range b'0' b'9' c then if ltb limit value then none else rest else none

-- `s.parse::<uN>()` at the greatest value `limit`: a `+` in front is allowed
unfoldable pub parse_uint : ℕ → Text → Option ℕ
unfolding read_digits
parse_uint limit [] = none
parse_uint limit (c ∷ []) = if nat_beq c b'+' then none else read_digits limit 0 (c ∷ [])
parse_uint limit (c ∷ d ∷ s) =
    if nat_beq c b'+' then read_digits limit 0 (d ∷ s) else read_digits limit 0 (c ∷ d ∷ s)

abbrev pub u64_max : ℕ
u64_max = 2 ^ 64 - 1

-- a text of digits
abbrev pub Digits : Text → Type 0
Digits = All (λ c. (b'0' ≤ c) × (c ≤ b'9'))

digits_onto-Digits : (f n : ℕ) (rest : Text) → Digits rest → Digits (digits_onto f n rest)
unfolding digits_onto
digits_onto-Digits zero n rest h = h
digits_onto-Digits (suc f) n rest h =
    ground (arith, digits_onto-Digits f (n / 10) ((b'0' + n % 10) ∷ rest))

pub to_decimal-Digits : (n : ℕ) → Digits (to_decimal n)
unfolding to_decimal
to_decimal-Digits n = digits_onto-Digits (suc n) n [] tt

-- Reading what was printed: the digits of `n` shift what was read before them by one place each.
places : ℕ → ℕ → ℕ → ℕ
places zero n m = m
places (suc f) n m =
    let more = places f (n / 10) m * 10 + n % 10 in if ltb n 10 then m * 10 + n else more

places-zero : (f n : ℕ) → n < f → places f n 0 ≡ n
unfolding places
places-zero zero n h = absurd (omega arith)
places-zero (suc f) n h = elim (Bool-cases (ltb n 10)) [
  | inl small ↦ rw small (omega arith)
  | inr large ↦ rw (large, places-zero f (n / 10) (ground arith)) (omega arith)
]

places-ge : (f n m : ℕ) → n < f → n ≤ places f n m
unfolding places
places-ge zero n m h = absurd (omega arith)
places-ge (suc f) n m h = ground (arith, places-ge f (n / 10) m)

one_digit :
    (limit n m : ℕ) (rest : Text)
    → n < 10
    → m * 10 + n ≤ limit
    → read_digits limit m ((b'0' + n) ∷ rest) ≡ read_digits limit (m * 10 + n) rest
unfolding read_digits
one_digit limit n m rest h fits = let e : b'0' + n - b'0' ≡ n = omega arith in rw e (ground arith)

read-digits_onto :
    (limit f n m : ℕ) (rest : Text)
    → n < f
    → places f n m ≤ limit
    → read_digits limit m (digits_onto f n rest) ≡ read_digits limit (places f n m) rest
unfolding digits_onto places
read-digits_onto limit zero n m rest h fits = absurd (omega arith)
read-digits_onto limit (suc f) n m rest h fits = elim (Bool-cases (ltb n 10)) [
  | inl small ↦ rw small (one_digit limit n m rest (ltb→lt n 10 small) (rw small at fits))
  | inr large ↦ rw large (
      read-digits_onto limit f (n / 10) m ((b'0' + n % 10) ∷ rest) (ground arith)
        (omega (arith, rw large at fits))
      ∙ one_digit limit (n % 10) (places f (n / 10) m) rest (omega arith) (rw large at fits))
]

digits_onto-length : (f n : ℕ) (rest : Text) → length rest ≤ length (digits_onto f n rest)
unfolding digits_onto
digits_onto-length zero n rest = omega arith
digits_onto-length (suc f) n rest =
    ground (arith, digits_onto-length f (n / 10) ((b'0' + n % 10) ∷ rest))

to_decimal-length : (n : ℕ) → 0 < length (to_decimal n)
unfolding to_decimal digits_onto
to_decimal-length n = ground (arith, digits_onto-length n (n / 10) ((b'0' + n % 10) ∷ []))

parse_uint-Digits :
    (limit : ℕ) (s : Text) → 0 < length s → Digits s → parse_uint limit s ≡ read_digits limit 0 s
unfolding parse_uint
parse_uint-Digits limit [] h d = absurd (omega arith)
parse_uint-Digits limit (c ∷ []) h d = ground arith
parse_uint-Digits limit (c ∷ e ∷ s) h d = ground arith

-- A number within the limit is read back from its digits.
pub parse_uint-to_decimal : (limit n : ℕ) → n ≤ limit → parse_uint limit (to_decimal n) ≡ some n
parse_uint-to_decimal limit n h =
    rw (parse_uint-Digits limit (to_decimal n) (to_decimal-length n) (to_decimal-Digits n)) (
      unfold to_decimal read_digits in
      rw (places-zero (suc n) n (omega arith)) at (
        read-digits_onto limit (suc n) n 0 [] (omega arith)
          (omega (arith, places-zero (suc n) n (omega arith)))))

-- What is read is within the limit.
pub read_digits-le :
    (limit n : ℕ) (s : Text) (v : ℕ) → n ≤ limit → read_digits limit n s ≡ some v → v ≤ limit
unfolding read_digits
read_digits-le limit n [] v h e = ground arith
read_digits-le limit n (c ∷ s) v h e =
    ground (arith, read_digits-le limit (n * 10 + (c - b'0')) s v)

-- A text of digits holds no character that is not a digit.
pub Digits-Without : (x : ℕ) (s : Text) → x < b'0' → Digits s → Without x s
Digits-Without x [] h d = tt
Digits-Without x (c ∷ s) h d = (omega arith, Digits-Without x s h d.1)
