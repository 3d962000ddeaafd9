-- ===== src/Network/Uids.antt =====
-- src/network.rs: the identifiers that `next_uid` mints.
use chonkline.Base.{
  ℕ, zero, suc, ◌+◌, ◌-◌, ◌*◌, ◌/◌, ◌%◌, ◌^◌, ◌<◌, ◌≡◌, refl, ap, true, [], ◌∷◌, length, all, leb,
  if◌then◌else◌, Text, arith, sym, ◌∙◌,
}
use chonkline.Str.{is_ascii_digit, is_ascii_uppercase}
use chonkline.Network.{Network, valid_uid, uid_alphabet, uid_slots, next_uid, upper_or_digit}

uid_alphabet-valid : (i : ℕ) → i < 36 → upper_or_digit (uid_alphabet i) ≡ true
unfolding uid_alphabet is_ascii_digit is_ascii_uppercase
uid_alphabet-valid i h = ground arith

abbrev uid_of : ℕ → Text
uid_of n = uid_slots 6 n []

slots-length : (k n : ℕ) (out : Text) → length (uid_slots k n out) ≡ k + length out
unfolding uid_slots
slots-length zero n out = omega arith
slots-length (suc k) n out = omega (arith, slots-length k (n / 36) (uid_alphabet (n % 36) ∷ out))

slots-valid :
    (k n : ℕ) (out : Text)
    → all upper_or_digit out ≡ true
    → all upper_or_digit (uid_slots k n out) ≡ true
unfolding uid_slots
slots-valid zero n out h = h
slots-valid (suc k) n out h =
    slots-valid k (n / 36) (uid_alphabet (n % 36) ∷ out)
      (rw (uid_alphabet-valid (n % 36) (omega arith)) h)

uid_of-valid : (n : ℕ) → valid_uid (uid_slots 6 n []) ≡ true
unfolding valid_uid
uid_of-valid n = rw (slots-length 6 n [], slots-valid 6 n [] refl) refl

-- Every minted UID has six characters, upper-case letters or digits.
pub next_uid-valid : (net : Network) → valid_uid (next_uid net).1 ≡ true
unfolding next_uid
next_uid-valid net = uid_of-valid net.next_uid

-- reading a UID as a number
letter_value : ℕ → ℕ
letter_value c = if leb b'A' c then c - b'A' else c - b'0' + 26

letter_value-uid_alphabet : (i : ℕ) → i < 36 → letter_value (uid_alphabet i) ≡ i
unfolding letter_value uid_alphabet
letter_value-uid_alphabet i h = ground arith

uid_value : ℕ → Text → ℕ
uid_value n [] = n
uid_value n (c ∷ s) = uid_value (n * 36 + letter_value c) s

uid_value-slots : (n : ℕ) → n < 36 ^ 6 → uid_value 0 (uid_slots 6 n []) ≡ n
unfolding uid_slots uid_value
uid_value-slots n h =
    rw
      (
        letter_value-uid_alphabet (n % 36) (omega arith),
        letter_value-uid_alphabet (n / 36 % 36) (omega arith),
        letter_value-uid_alphabet (n / 36 / 36 % 36) (omega arith),
        letter_value-uid_alphabet (n / 36 / 36 / 36 % 36) (omega arith),
        letter_value-uid_alphabet (n / 36 / 36 / 36 / 36 % 36) (omega arith),
        letter_value-uid_alphabet (n / 36 / 36 / 36 / 36 / 36 % 36) (omega arith),
      )
      (omega arith)

-- Counters below 36^6 that give one UID are one counter.
pub uid_of-injective :
    (a b : ℕ) → a < 36 ^ 6 → b < 36 ^ 6 → uid_slots 6 a [] ≡ uid_slots 6 b [] → a ≡ b
uid_of-injective a b ha hb e =
    sym (uid_value-slots a ha) ∙ ap (uid_value 0) e ∙ uid_value-slots b hb
