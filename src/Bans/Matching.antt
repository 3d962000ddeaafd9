-- ===== src/Bans/Matching.antt =====
-- src/bans.rs: which ban a connection meets in `matching`.
use chonkline.Base.{
  ℕ, ◌+◌, ◌^◌, ◌≤◌, ◌<◌, ◌≡◌, ◌≢◌, ◌⊎◌, ◌↔◌, inl, inr, refl, sym, Bool, true, false, Option, none,
  some, List, [], ◌∷◌, ◌++◌, retain, find, Text, All, arith, Bool-cases, All-append, subst,
  some-injective, ◌==◌, text_eq, text_beq_iff,
}
use chonkline.Glob.{glob_match}
use chonkline.Glob.Spec.{Matches}
use chonkline.Glob.Complete.{StarFree, glob_match_iff}
use chonkline.Bans.{Ban, BanStore, Disk, is_live, matching, add, made, other_mask}

-- one of the bans satisfies `P`
abbrev pub Some : (Ban → Type 0) → List Ban → Type 0
Some P [] = ⊥
Some P (b ∷ bans) = P b ⊎ Some P bans

-- a ban that has no end, or whose end is still to come
abbrev pub Lasts : ℕ → Ban → Type 0
Lasts now b = (b.expiry ≡ 0) ⊎ (now < b.expiry)

-- a ban that lasts and whose mask means the address
abbrev pub Hit : Text → ℕ → Ban → Type 0
Hit addr now b = Lasts now b × Matches b.mask addr

-- what the code tests of a ban
abbrev pub Met : Text → ℕ → Ban → Type 0
Met addr now b = (is_live now b ≡ true) × (glob_match b.mask addr ≡ true)

hit_of : Text → ℕ → List Ban → Option Ban
hit_of addr now bans = find (λ b. glob_match b.mask addr) (retain (is_live now) bans)

here-Met :
    (addr : Text) (now : ℕ) (x b : Ban) (bans : List Ban)
    → is_live now x ≡ true
    → glob_match x.mask addr ≡ true
    → x ≡ b
    → Met addr now b × Some (λ y. y ≡ b) (x ∷ bans)
here-Met addr now x b bans live hit e = (subst (Met addr now) e (live, hit), inl e)

find-Met :
    (addr : Text) (now : ℕ) (bans : List Ban) (b : Ban)
    → hit_of addr now bans ≡ some b
    → Met addr now b × Some (λ x. x ≡ b) bans
unfolding hit_of
find-Met addr now [] b h = cc
find-Met addr now (x ∷ bans) b h = elim (Bool-cases (is_live now x)) [
  | inl live ↦ elim (Bool-cases (glob_match x.mask addr)) [
    | inl hit ↦ here-Met addr now x b bans live hit (some-injective _ _ (rw (live, hit) at h))
    | inr miss ↦ later (find-Met addr now bans b (rw (live, miss) at h))
  ]
  | inr lapsed ↦ later (find-Met addr now bans b (rw lapsed at h))
]
  where
    later : Met addr now b × Some (λ y. y ≡ b) bans → Met addr now b × Some (λ y. y ≡ b) (x ∷ bans)
    later (h, s) = (h, inr s)

Some-find :
    (addr : Text) (now : ℕ) (bans : List Ban)
    → Some (Met addr now) bans
    → hit_of addr now bans ≢ none
unfolding hit_of
Some-find addr now [] h = absurd h
Some-find addr now (x ∷ bans) (inl hit) = ground arith
Some-find addr now (x ∷ bans) (inr more) = ground (arith, Some-find addr now bans more)

is_live_iff : (now : ℕ) (b : Ban) → (is_live now b ≡ true) ↔ Lasts now b
is_live_iff now b = (λ h. ground arith, λ h. ground arith)

Met-Hit : (addr : Text) (now : ℕ) (b : Ban) → StarFree addr → Met addr now b ↔ Hit addr now b
Met-Hit addr now b free =
    let lives = is_live_iff now b in
    let hits = glob_match_iff b.mask addr free in
    (λ m. (lives.0 m.0, hits.0 m.1), λ h. (lives.1 h.0, hits.1 h.1))

Some-map :
    {P Q : Ban → Type 0} (bans : List Ban) → ((b : Ban) → P b → Q b) → Some P bans → Some Q bans
Some-map [] f h = h
Some-map (x ∷ bans) f (inl h) = inl (f x h)
Some-map (x ∷ bans) f (inr h) = inr (Some-map bans f h)

Some-retain :
    (now : ℕ) (b : Ban) (bans : List Ban)
    → Some (λ x. x ≡ b) (retain (is_live now) bans) ↔ (Some (λ x. x ≡ b) bans × Lasts now b)
Some-retain now b [] = (λ h. absurd h, λ h. absurd h.0)
Some-retain now b (x ∷ bans) = elim (Bool-cases (is_live now x)) [
  | inl live ↦ rw live (
    λ h. elim h [
      | inl e ↦ (inl e, subst (Lasts now) e ((is_live_iff now x).0 live))
      | inr more ↦ let (m, k) = (Some-retain now b bans).0 more in (inr m, k)
    ],
    λ (h, k). elim h [ inl e ↦ inl e | inr m ↦ inr ((Some-retain now b bans).1 (m, k)) ],
  )
  | inr lapsed ↦ rw lapsed (
    λ more. let (m, k) = (Some-retain now b bans).0 more in (inr m, k),
    λ (h, k). elim h [
      | inl e ↦
          let lasts : Lasts now x = subst (Lasts now) (sym e) k in
          let live = (is_live_iff now x).1 lasts in cc
      | inr m ↦ (Some-retain now b bans).1 (m, k)
    ],
  )
]

-- For an address without a star: the answer is a ban of the store that has no end or ends later than
-- now, and whose mask means the address; there is an answer exactly when the store has such a ban;
-- and the store keeps exactly the bans that have no end or end later than now.
pub matching-exact :
    (addr : Text) (now : ℕ) (s : BanStore)
    → StarFree addr
    → ((b : Ban) → (matching addr now s).1 ≡ some b → Hit addr now b × Some (λ x. x ≡ b) s.bans)
      × (Some (Hit addr now) s.bans → (matching addr now s).1 ≢ none)
      × ((b : Ban)
          → Some (λ x. x ≡ b) (matching addr now s).0.bans
            ↔ (Some (λ x. x ≡ b) s.bans × Lasts now b))
unfolding matching hit_of
matching-exact addr now s free = (
  λ b e. let (met, m) = find-Met addr now s.bans b e in ((Met-Hit addr now b free).0 met, m),
  λ h. Some-find addr now s.bans (Some-map s.bans (λ b. (Met-Hit addr now b free).1) h),
  λ b. Some-retain now b s.bans,
)

Some-last : (P : Ban → Type 0) (bans : List Ban) (b : Ban) → P b → Some P (bans ++ b ∷ [])
Some-last P [] b h = inl h
Some-last P (x ∷ bans) b h = inr (Some-last P bans b h)

pub add-bans :
    (mask setter reason : Text) (duration now : ℕ) (s : BanStore) (disk : Disk)
    → mask ≢ []
    → (add mask duration setter reason now (s, disk)).0.bans
      ≡ retain (other_mask mask) s.bans ++ made mask duration setter reason now ∷ []
unfolding add
add-bans [] setter reason duration now s disk ne = absurd (ne refl)
add-bans (c ∷ mask) setter reason duration now s disk ne = refl

made-live :
    (mask setter reason : Text) (duration now later : ℕ)
    → now + duration < 2 ^ 64
    → (duration ≡ 0) ⊎ (later < now + duration)
    → is_live later (made mask duration setter reason now) ≡ true
made-live mask setter reason duration now later fits lasts = ground arith

-- Where the mask is not empty and the clock and the duration add up to less than 2^64: after `add`, an
-- address that `glob_match` accepts for the mask meets a ban, at any time if the duration is 0, and else
-- before the time that lies `duration` seconds after the ban was added.
pub matching-add :
    (mask addr setter reason : Text) (duration now later : ℕ) (s : BanStore) (disk : Disk)
    → mask ≢ []
    → glob_match mask addr ≡ true
    → now + duration < 2 ^ 64
    → (duration ≡ 0) ⊎ (later < now + duration)
    → (matching addr later (add mask duration setter reason now (s, disk)).0).1 ≢ none
unfolding matching hit_of
matching-add mask addr setter reason duration now later s disk ne hit fits lasts =
    Some-find addr later (add mask duration setter reason now (s, disk)).0.bans (
      rw (add-bans mask setter reason duration now s disk ne) (
        Some-last (Met addr later) (retain (other_mask mask) s.bans) _
          (made-live mask setter reason duration now later fits lasts, hit)))

made-lapsed :
    (mask setter reason : Text) (duration now later : ℕ)
    → now < 2 ^ 64
    → duration < 2 ^ 64
    → 2 ^ 64 < now + duration
    → now ≤ later
    → is_live later (made mask duration setter reason now) ≡ false
made-lapsed mask setter reason duration now later a b over after = ground arith

retain-implies :
    (P : Ban → Type 0) (f : Ban → Bool) (bans : List Ban)
    → All (λ b. f b ≡ true → P b) bans
    → All P (retain f bans)
retain-implies P f [] h = tt
retain-implies P f (x ∷ bans) h = elim (Bool-cases (f x)) [
  | inl e ↦ rw e (h.0 e, retain-implies P f bans h.1)
  | inr e ↦ rw e (retain-implies P f bans h.1)
]

find-All :
    (P : Ban → Type 0) (f : Ban → Bool) (bans : List Ban) (b : Ban)
    → All P bans
    → find f bans ≡ some b
    → P b
find-All P f [] b h e = cc
find-All P f (x ∷ bans) b h e = elim (Bool-cases (f x)) [
  | inl t ↦ subst P (some-injective _ _ (rw t at e)) h.0
  | inr t ↦ find-All P f bans b h.1 (rw t at e)
]

-- the others are kept, and have another mask
others-differ :
    (mask : Text) (bans : List Ban) → All (λ b. b.mask ≢ mask) (retain (other_mask mask) bans)
others-differ mask [] = tt
others-differ mask (x ∷ bans) = elim (Bool-cases (x.mask == mask)) [
  | inl e ↦ rw e (others-differ mask bans)
  | inr e ↦ rw e (λ same. let t = (text_beq_iff x.mask mask).1 same in cc, others-differ mask bans)
]

weaken : (P Q : Ban → Type 0) (bans : List Ban) → All P bans → All (λ b. Q b → P b) bans
weaken P Q [] h = tt
weaken P Q (x ∷ bans) h = (λ q. h.0, weaken P Q bans h.1)

-- The clock and the duration are below 2^64 and add up modulo 2^64. Adding a ban whose mask is not empty and
-- whose sum is above 2^64 lifts the ban of its mask, where there was one, and makes none that lasts: from
-- that time on no ban of the mask is left in the store when an address is looked up, and none is the answer.
pub add-overflow_lapses :
    (mask addr setter reason : Text) (duration now later : ℕ) (s : BanStore) (disk : Disk)
    → mask ≢ []
    → now < 2 ^ 64
    → duration < 2 ^ 64
    → 2 ^ 64 < now + duration
    → now ≤ later
    → let found = matching addr later (add mask duration setter reason now (s, disk)).0 in
      All (λ b. b.mask ≢ mask) found.0.bans × ((b : Ban) → found.1 ≡ some b → b.mask ≢ mask)
unfolding matching
add-overflow_lapses mask addr setter reason duration now later s disk ne a b over after =
    (left, λ b e. find-All Differs (λ x. glob_match x.mask addr) _ b left e)
  where
    Differs : Ban → Type 0
    Differs b = b.mask ≢ mask

    new : Ban
    new = made mask duration setter reason now

    lapsed : is_live later new ≡ false
    lapsed = made-lapsed mask setter reason duration now later a b over after

    kept : List Ban
    kept = retain (other_mask mask) s.bans

    left :
        All
          (λ b. b.mask ≢ mask)
          (retain (is_live later) (add mask duration setter reason now (s, disk)).0.bans)
    left = rw (add-bans mask setter reason duration now s disk ne) (
        retain-implies Differs (is_live later) (kept ++ new ∷ []) (
          All-append (λ b. is_live later b ≡ true → Differs b) kept (new ∷ [])
            (weaken Differs (λ b. is_live later b ≡ true) kept (others-differ mask s.bans))
            (λ t. cc lapsed, tt)))
