-- ===== src/Base/Keys.antt =====
-- Maps whose keys stand once each: what is found among the values is what a lookup finds.
use mathlib.Core.Path.{◌≡◌, refl, ◌∙◌, ap}
use mathlib.Core.List.{List, [], ◌∷◌}
use mathlib.Core.Option.{none, some, some-injective}
use mathlib.Core.Bool.{Bool, true, false}
use mathlib.Core.Logic.{◌⊎◌, inl, inr}
use native.Mathlib.Omega.{arith}
use chonkline.Base.Tests.{Bool-cases, if_cases}
use chonkline.Base.Equality.{Eq, ◌==◌}
use chonkline.Base.Lists.{find}
use chonkline.Base.Maps.{Map, lookup, insert, remove, lookup-insert, lookup-remove}

module _ {ℓ} {K V : Type ℓ} where
  abbrev pub values : Map K V → List V
  values [] = []
  values ((k, v) ∷ m) = v ∷ values m

  -- `values_mut`
  unfoldable pub map_values : (V → V) → Map K V → Map K V
  map_values f [] = []
  map_values f ((k, v) ∷ m) = (k, f v) ∷ map_values f m

module _ {ℓ} {K V : Type ℓ} ⦃e : Eq K⦄ where
  abbrev pub IsDistinct : Map K V → Type ℓ
  IsDistinct [] = Unit
  IsDistinct ((k, v) ∷ m) = (lookup k m ≡ none) × IsDistinct m

  pub insert-IsDistinct : (k : K) (v : V) (m : Map K V) → IsDistinct m → IsDistinct (insert k v m)
  unfolding insert
  insert-IsDistinct k v [] d = (unfold lookup in refl, tt)
  insert-IsDistinct k v ((j, w) ∷ m) d = elim (Bool-cases (j == k)) [
    | inl h ↦ let same : j ≡ k = (e.equal_iff j k).0 h in rw h (rw same at d.0, d.1)
    | inr h ↦
        let other : k == j ≡ false = ground (arith, e.equal_iff j k, e.equal_iff k j) in
        rw h (rw (lookup-insert, other) d.0, insert-IsDistinct k v m d.1)
  ]

  pub remove-IsDistinct : (k : K) (m : Map K V) → IsDistinct m → IsDistinct (remove k m)
  unfolding remove
  remove-IsDistinct k [] d = tt
  remove-IsDistinct k ((j, w) ∷ m) d =
      if_cases IsDistinct (j == k) (remove k m) ((j, w) ∷ remove k m)
        (λ h. remove-IsDistinct k m d.1)
        (λ h.
          let other : k == j ≡ false = ground (arith, e.equal_iff j k, e.equal_iff k j) in
          (lookup-remove k j m ∙ (rw other d.0), remove-IsDistinct k m d.1))

  pub lookup-map_values :
      (f : V → V) (k : K) (m : Map K V)
      → lookup k (map_values f m) ≡ elim (lookup k m) [ none ↦ none | some v ↦ some (f v) ]
  unfolding lookup map_values
  lookup-map_values f k [] = refl
  lookup-map_values f k ((j, w) ∷ m) = ground (arith, lookup-map_values f k m)

  -- with distinct keys, a value that is found stands under the key that `key_of` tells
  pub find-values :
      (p : V → Bool) (m : Map K V) (v : V)
      → IsDistinct m
      → find p (values m) ≡ some v
      → (k : K) × (lookup k m ≡ some v) × (p v ≡ true)
  unfolding lookup
  find-values p [] v d h = cc
  find-values p ((j, w) ∷ m) v d h = elim (Bool-cases (p w)) [
    | inl t ↦
        let same : w ≡ v = some-injective _ _ (rw t at h) in
        let here : j == j ≡ true = (e.equal_iff j j).1 refl in
        (j, rw here (ap some same), rw (← same) t)
    | inr f ↦
        let (k, found, passed) = find-values p m v d.1 (rw f at h) in
        (k, ground (arith, e.equal_iff j k), passed)
  ]

  -- and where none is found, no value passes
  pub find-values-none :
      (p : V → Bool) (m : Map K V) (k : K) (v : V)
      → find p (values m) ≡ none
      → lookup k m ≡ some v
      → p v ≡ false
  unfolding lookup
  find-values-none p [] k v h found = cc
  find-values-none p ((j, w) ∷ m) k v h found = elim (Bool-cases (p w)) [
    | inl t ↦ let hit : some w ≡ none = rw t at h in cc
    | inr f ↦ elim (Bool-cases (j == k)) [
      | inl same ↦ let one : w ≡ v = some-injective _ _ (rw same at found) in rw (← one) f
      | inr other ↦ find-values-none p m k v (rw f at h) (rw other at found)
    ]
  ]

  -- what a lookup finds after an insertion: what was inserted, or what was there
  pub found_after :
      (key k : K) (u v : V) (m : Map K V)
      → lookup k (insert key u m) ≡ some v
      → ((key ≡ k) × (u ≡ v)) ⊎ ((lookup k m ≡ some v) × (key == k ≡ false))
  found_after key k u v m h = elim (Bool-cases (key == k)) [
    | inl t ↦
        let same : some u ≡ some v = rw (lookup-insert key k u m, t) at h in
        inl ((e.equal_iff key k).0 t, some-injective u v same)
    | inr f ↦ inr (rw (lookup-insert key k u m, f) at h, f)
  ]

  -- what it finds after a removal was there, under another key
  pub found_still :
      (key k : K) (v : V) (m : Map K V)
      → lookup k (remove key m) ≡ some v
      → (lookup k m ≡ some v) × (key == k ≡ false)
  found_still key k v m h = elim (Bool-cases (key == k)) [
    | inl t ↦ let bad : none ≡ some v = rw (lookup-remove key k m, t) at h in cc
    | inr f ↦ (rw (lookup-remove key k m, f) at h, f)
  ]
