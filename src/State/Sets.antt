-- ===== src/State/Sets.antt =====
-- `BTreeSet<usize>` and `BTreeMap<char, V>`, which the program iterates over: lists in the order of
-- their keys.
use chonkline.Base.{
  ℕ, ◌≡◌, refl, not, ◌&&◌, ◌||◌, List, [], ◌∷◌, nat_beq, ltb, if◌then◌else◌, nat_eq, contains,
  arith,
}

unfoldable pub set_insert : ℕ → List ℕ → List ℕ
set_insert x [] = x ∷ []
set_insert x (y ∷ ys) =
    let rest = set_insert x ys in
    if ltb x y then x ∷ y ∷ ys else if nat_beq x y then y ∷ ys else y ∷ rest

unfoldable pub set_remove : ℕ → List ℕ → List ℕ
set_remove x [] = []
set_remove x (y ∷ ys) = let rest = set_remove x ys in if nat_beq y x then rest else y ∷ rest

unfoldable pub map_insert {ℓ} : {V : Type ℓ} → ℕ → V → List (ℕ × V) → List (ℕ × V)
map_insert k v [] = (k, v) ∷ []
map_insert k v ((j, w) ∷ m) =
    let rest = map_insert k v m in
    if ltb k j then (k, v) ∷ (j, w) ∷ m else if nat_beq k j then (k, v) ∷ m else (j, w) ∷ rest

unfoldable pub map_remove {ℓ} : {V : Type ℓ} → ℕ → List (ℕ × V) → List (ℕ × V)
map_remove k [] = []
map_remove k ((j, w) ∷ m) = let rest = map_remove k m in if nat_beq j k then rest else (j, w) ∷ rest

pub contains-set_insert :
    (x y : ℕ) (xs : List ℕ) → contains y (set_insert x xs) ≡ (nat_beq x y || contains y xs)
unfolding set_insert
contains-set_insert x y [] = refl
contains-set_insert x y (z ∷ xs) = ground (arith, contains-set_insert x y xs)

pub contains-set_remove :
    (x y : ℕ) (xs : List ℕ) → contains y (set_remove x xs) ≡ (not (nat_beq x y) && contains y xs)
unfolding set_remove
contains-set_remove x y [] = ground arith
contains-set_remove x y (z ∷ xs) = ground (arith, contains-set_remove x y xs)
