-- ===== src/Accounts/Positions.antt =====
-- src/accounts.rs: a list of fingerprints from which one is taken out and put back.
use chonkline.Base.{
  ℕ, suc, ◌+◌, ◌≡◌, refl, ap, subst, beq_refl, true, false, not, ◌&&◌, ◌||◌, some, some-injective,
  List, [], ◌∷◌, ◌==◌, Text, text_eq, text_beq_iff, contains, arith, Bool-cases, Option-cases, inl,
  inr,
}
use chonkline.Accounts.Certs.{position, remove_at, insert_at}
use chonkline.Accounts.Links.{Once}

-- what `position` finds: the list without it, and whole again
pub record IsAt (y : Text) (i : ℕ) (xs : List Text) : Type 0 where
  pub held : contains y xs ≡ true
  pub rest : (x : Text) → Once xs → contains x (remove_at i xs) ≡ (not (y == x) && contains x xs)
  pub rest_once : Once xs → Once (remove_at i xs)
  pub restored : insert_at i y (remove_at i xs) ≡ xs

front : (y : Text) (xs : List Text) → IsAt y 0 (y ∷ xs)
unfolding remove_at insert_at
front y xs = record {
  held = rw (beq_refl y) refl;
  rest = other;
  rest_once = λ o. o.1;
  restored = refl;
}
  where
    other : (z : Text) → Once (y ∷ xs) → contains z xs ≡ (not (y == z) && (y == z || contains z xs))
    other z o = elim (Bool-cases (y == z)) [
      | inl t ↦ rw t (subst (λ (u : Text). contains u xs ≡ false) ((text_beq_iff y z).0 t) o.0)
      | inr f ↦ rw f refl
    ]

later :
    (y x : Text) (i : ℕ) (xs : List Text) → (x == y) ≡ false → IsAt y i xs → IsAt y (suc i) (x ∷ xs)
unfolding remove_at insert_at
later y x i xs e k = record {
  held = ground (arith, k.held);
  rest = λ z o.
      rw (k.rest z o.1) (ground (arith, e, text_beq_iff x y, text_beq_iff y z, text_beq_iff x z));
  rest_once = λ o. (rw (k.rest x o.1, o.0) (ground arith), k.rest_once o.1);
  restored = ap (◌∷◌ x) k.restored;
}

pub position-IsAt : (y : Text) (xs : List Text) (i : ℕ) → position y xs ≡ some i → IsAt y i xs
unfolding position
position-IsAt y [] i h = cc
position-IsAt y (x ∷ xs) i h = elim (Bool-cases (x == y)) [
  | inl e ↦
      let zero_at : 0 ≡ i = some-injective _ _ (rw (e, position) at h) in
      let same : x ≡ y = (text_beq_iff x y).0 e in rw (← zero_at, same) (front y xs)
  | inr e ↦ elim (Option-cases (position y xs)) [
    | inl n ↦ cc
    | inr (j, n) ↦
        let plus : j + 1 ≡ i = some-injective _ _ (rw (e, n, position) at h) in
        let suc_at : suc j ≡ i = omega (arith, plus) in
        rw (← suc_at) (later y x j xs e (position-IsAt y xs j n))
  ]
]
