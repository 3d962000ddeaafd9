-- ===== src/Base/Maps.antt =====
-- `HashMap` as an association list: the order of its entries stands for the order in which the
-- program iterates, and no law below depends on it.
use Prim.Native.Nat.{ℕ, ◌+◌}
use mathlib.Core.Path.{◌≡◌, refl}
use mathlib.Core.List.{List, [], ◌∷◌}
use mathlib.Core.Option.{Option, none, some}
use mathlib.Core.Bool.{Bool, true, false}
use native.Mathlib.Omega.{arith}
use chonkline.Base.Tests.{if◌then◌else◌}
use chonkline.Base.Equality.{Eq, ◌==◌}

abbrev pub Map {ℓ} : Type ℓ → Type ℓ → Type ℓ
Map K V = List (K × V)

module _ {ℓ} {K V : Type ℓ} ⦃e : Eq K⦄ where
  unfoldable pub lookup : K → Map K V → Option V
  lookup k [] = none
  lookup k ((j, v) ∷ m) = let rest = lookup k m in if j == k then some v else rest

  unfoldable pub insert : K → V → Map K V → Map K V
  insert k v [] = (k, v) ∷ []
  insert k v ((other, w) ∷ m) =
      let rest = insert k v m in if other == k then (k, v) ∷ m else (other, w) ∷ rest

  unfoldable pub remove : K → Map K V → Map K V
  remove k [] = []
  remove k ((j, w) ∷ m) = let rest = remove k m in if j == k then rest else (j, w) ∷ rest

  pub lookup-insert :
      (k asked : K) (v : V) (m : Map K V)
      → lookup asked (insert k v m) ≡ (if k == asked then some v else lookup asked m)
  unfolding lookup insert
  lookup-insert k asked v [] = refl
  lookup-insert k asked v ((key, w) ∷ rest) = ground (
    arith,
    e.equal_iff k asked,
    e.equal_iff key k,
    e.equal_iff key asked,
    lookup-insert k asked v rest,
  )

  pub lookup-remove :
      (k j : K) (m : Map K V) → lookup j (remove k m) ≡ (if k == j then none else lookup j m)
  unfolding lookup remove
  lookup-remove k j [] = ground arith
  lookup-remove k j ((i, w) ∷ m) =
      ground (arith, e.equal_iff k j, e.equal_iff i k, e.equal_iff i j, lookup-remove k j m)

  unfoldable pub contains_key : K → Map K V → Bool
  contains_key k m = elim (lookup k m) [ none ↦ false | some v ↦ true ]

  -- the sum over all entries
  unfoldable pub total : (V → ℕ) → Map K V → ℕ
  total f [] = 0
  total f ((k, v) ∷ m) = f v + total f m

  pub total-insert-none :
      (f : V → ℕ) (k : K) (w : V) (m : Map K V)
      → lookup k m ≡ none
      → total f (insert k w m) ≡ total f m + f w
  unfolding lookup insert total
  total-insert-none f k w [] h = omega arith
  total-insert-none f k w ((j, u) ∷ m) h = ground (arith, total-insert-none f k w m)

  pub total-insert-some :
      (f : V → ℕ) (k : K) (v w : V) (m : Map K V)
      → lookup k m ≡ some v
      → total f (insert k w m) + f v ≡ total f m + f w
  unfolding lookup insert total
  total-insert-some f k v w [] h = cc
  total-insert-some f k v w ((j, u) ∷ m) h = ground (arith, total-insert-some f k v w m)

pub ruleset map_laws = (lookup-insert, lookup-remove)
