-- ===== src/Bans/Masks.antt =====
-- src/bans.rs: what `add` and `remove` do to the list of masks.
use chonkline.Base.{
  ℕ, suc, ap, ◌<◌, ◌≡◌, ◌≢◌, ◌↔◌, inl, inr, refl, Bool, true, false, List, [], ◌∷◌, ◌++◌, length,
  retain, Text, All, arith, Bool-cases, text_beq, text_beq_iff, All-append, All-retain,
  length-retain-le, retain_id, retain-All,
}
use chonkline.Bans.{Ban, BanStore, Disk, add, remove, other_mask}
use chonkline.Bans.Matching.{Some, add-bans}

-- the masks differ pairwise
abbrev pub Distinct : List Ban → Type 0
Distinct [] = Unit
Distinct (b ∷ bans) = All (λ x. other_mask b.mask x ≡ true) bans × Distinct bans

Distinct-retain : (p : Ban → Bool) (bans : List Ban) → Distinct bans → Distinct (retain p bans)
Distinct-retain p [] d = tt
Distinct-retain p (b ∷ bans) d =
    ground
      (arith, Distinct-retain p bans d.1, All-retain (λ x. other_mask b.mask x ≡ true) p bans d.0)

other_mask_sym : (a b : Ban) → other_mask a.mask b ≡ true → other_mask b.mask a ≡ true
other_mask_sym a b h = ground (arith, text_beq_iff a.mask b.mask, text_beq_iff b.mask a.mask)

Distinct-last :
    (bans : List Ban) (b : Ban)
    → Distinct bans
    → All (λ x. other_mask b.mask x ≡ true) bans
    → Distinct (bans ++ b ∷ [])
Distinct-last [] b d a = (tt, tt)
Distinct-last (x ∷ bans) b d a = (
  All-append (λ y. other_mask x.mask y ≡ true) bans (b ∷ []) d.0 (other_mask_sym b x a.0, tt),
  Distinct-last bans b d.1 a.1,
)

-- Adding a ban keeps the masks distinct: the new entry replaces one of the same mask.
pub add-Distinct :
    (mask setter reason : Text) (duration now : ℕ) (s : BanStore) (disk : Disk)
    → Distinct s.bans
    → Distinct (add mask duration setter reason now (s, disk)).0.bans
add-Distinct [] setter reason duration now s disk d = unfold add in d
add-Distinct (c ∷ mask) setter reason duration now s disk d =
    rw (add-bans (c ∷ mask) setter reason duration now s disk (λ e. cc)) (
      Distinct-last (retain (other_mask (c ∷ mask)) s.bans) _
        (Distinct-retain (other_mask (c ∷ mask)) s.bans d)
        (retain-All (other_mask (c ∷ mask)) s.bans))

kept-All :
    (mask : Text) (bans : List Ban)
    → length (retain (other_mask mask) bans) ≡ length bans
    → All (λ x. other_mask mask x ≡ true) bans
kept-All mask [] h = tt
kept-All mask (b ∷ bans) h =
    ground (arith, kept-All mask bans, length-retain-le (other_mask mask) bans)

one_dropped :
    (mask : Text) (bans : List Ban)
    → Some (λ x. x.mask ≡ mask) bans
    → length (retain (other_mask mask) bans) < length bans
one_dropped mask [] h = elim h [ ]
one_dropped mask (b ∷ bans) (inl e) =
    ground (arith, length-retain-le (other_mask mask) bans, text_beq_iff b.mask mask)
one_dropped mask (b ∷ bans) (inr more) = ground (arith, one_dropped mask bans more)

was_there :
    (mask : Text) (bans : List Ban)
    → length (retain (other_mask mask) bans) ≢ length bans
    → Some (λ x. x.mask ≡ mask) bans
was_there mask [] h = h refl
was_there mask (b ∷ bans) h = elim (Bool-cases (text_beq b.mask mask)) [
  | inl e ↦ inl ((text_beq_iff b.mask mask).0 e)
  | inr n ↦ inr (was_there mask bans (λ k. h (rw n (ap suc k))))
]

-- what a removal does
pub record Removed (mask : Text) (s : BanStore) (disk : Disk) : Type 0 where
  pub reported : ((remove mask (s, disk)).1 ≡ true) ↔ Some (λ b. b.mask ≡ mask) s.bans
  pub gone : All (λ b. other_mask mask b ≡ true) (remove mask (s, disk)).0.0.bans
  pub distinct : Distinct s.bans → Distinct (remove mask (s, disk)).0.0.bans
  pub unchanged : (remove mask (s, disk)).1 ≡ false → (remove mask (s, disk)).0 ≡ (s, disk)

-- Removing reports whether the mask was there, leaves no ban of that mask, keeps the masks distinct,
-- and where it reports false it has left the store and the file as they were.
pub remove-Removed : (mask : Text) (s : BanStore) (disk : Disk) → Removed mask s disk
unfolding remove
remove-Removed mask s disk = record {
  reported =
      (λ h. was_there mask s.bans (ground arith), λ h. ground (arith, one_dropped mask s.bans h));
  gone = retain-All (other_mask mask) s.bans;
  distinct = Distinct-retain (other_mask mask) s.bans;
  unchanged = λ h.
      let same = retain_id (other_mask mask) s.bans (kept-All mask s.bans (ground arith)) in
      rw same (ground arith);
}
