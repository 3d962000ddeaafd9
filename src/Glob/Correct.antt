-- ===== src/Glob/Correct.antt =====
-- src/bans.rs: the loop of `glob_match` and its fuel.
use chonkline.Base.{
  ℕ, zero, suc, ◌+◌, ◌-◌, ◌*◌, ◌≤◌, ◌<◌, ◌≡◌, ◌≢◌, ◌↔◌, inl, inr, refl, Bool, true, false, ◌||◌,
  Option, none, some, [], length, get_elem?, drop, ltb, nat_beq, Text, arith, Option-cases, drop_at,
  get_elem?-lt, get_elem?-ge, drop_end, nat_beq_iff, ltb→lt, if_cases,
}
use chonkline.Glob.{matches_one, is_star, skip_stars, glob_loop, enough, glob_match}
use chonkline.Glob.Spec.{Matches, done, leave, inv_end}

-- The loop goes on behind the mask's character `p`, or goes back: nothing in the mask fits here.
abbrev pub Mismatch : Text → Text → ℕ → ℕ → Type 0
Mismatch m t mi ti =
    (ti < length t)
    × (matches_one (get_elem? m mi) (get_elem? t ti) ≡ false)
    × (is_star (get_elem? m mi) ≡ false)

abbrev pub Fits : Text → Text → ℕ → ℕ → Type 0
Fits m t mi ti =
    (p : ℕ) × (c : ℕ) × (get_elem? m mi ≡ some p)
    × (get_elem? t ti ≡ some c)
    × ((nat_beq p b'?' || nat_beq p c) ≡ true)

abbrev pub AtStar : Text → ℕ → Type 0
AtStar m mi = (p : ℕ) × (get_elem? m mi ≡ some p) × (p ≡ b'*')

matches_one-Fits :
    (m t : Text) (mi ti : ℕ) → matches_one (get_elem? m mi) (get_elem? t ti) ≡ true → Fits m t mi ti
matches_one-Fits m t mi ti h = go (get_elem? m mi) (get_elem? t ti) refl refl h
  where
    go :
        (a b : Option ℕ)
        → get_elem? m mi ≡ a
        → get_elem? t ti ≡ b
        → matches_one a b ≡ true
        → Fits m t mi ti
    go none b e k h = cc
    go (some p) none e k h = cc
    go (some p) (some c) e k h = (p, c, e, k, h)

is_star-AtStar : (m : Text) (mi : ℕ) → is_star (get_elem? m mi) ≡ true → AtStar m mi
is_star-AtStar m mi h = go (get_elem? m mi) refl h
  where
    go : (a : Option ℕ) → get_elem? m mi ≡ a → is_star a ≡ true → AtStar m mi
    go none e h = cc
    go (some p) e h = (p, e, ground arith)

-- One round: what is to be shown of it, from what is shown of the five ways that it can go.
module _ {ℓ} (P : Option Bool → Type ℓ) (f : ℕ) (m t : Text) (mi ti bt : ℕ) where
  pub loop_cases :
      (star : Option ℕ)
      → (length t ≤ ti → P (some (nat_beq (skip_stars (length m) m mi) (length m))))
      → (Fits m t mi ti → P (glob_loop f m t (mi + 1) (ti + 1) star bt))
      → (AtStar m mi → ti < length t → P (glob_loop f m t (mi + 1) ti (some mi) ti))
      → (Mismatch m t mi ti → star ≡ none → P (some false))
      → ((s : ℕ)
          → Mismatch m t mi ti
          → star ≡ some s
          → P (glob_loop f m t (s + 1) (bt + 1) (some s) (bt + 1)))
      → P (glob_loop (suc f) m t mi ti star bt)
  unfolding glob_loop
  loop_cases none at_end step open_star stuck back =
      if_cases P (ltb ti (length t)) _ _
        (λ lt.
          if_cases P (matches_one (get_elem? m mi) (get_elem? t ti)) _ _
            (λ h. step (matches_one-Fits m t mi ti h))
            (λ n.
              if_cases P (is_star (get_elem? m mi)) _ _
                (λ h. open_star (is_star-AtStar m mi h) (ltb→lt _ _ lt))
                (λ k. stuck (ltb→lt _ _ lt, n, k) refl)))
        (λ ge. at_end (ground arith))
  loop_cases (some s) at_end step open_star stuck back =
      if_cases P (ltb ti (length t)) _ _
        (λ lt.
          if_cases P (matches_one (get_elem? m mi) (get_elem? t ti)) _ _
            (λ h. step (matches_one-Fits m t mi ti h))
            (λ n.
              if_cases P (is_star (get_elem? m mi)) _ _
                (λ h. open_star (is_star-AtStar m mi h) (ltb→lt _ _ lt))
                (λ k. back s (ltb→lt _ _ lt, n, k) refl)))
        (λ ge. at_end (ground arith))

-- The loop ends: `w` bounds the characters of the text from which a saved star can still restart.
mul_mono_left : (a b k : ℕ) → a ≤ b → a * k ≤ b * k
mul_mono_left a b k h = grind arith

mul_pred : (w k : ℕ) → 0 < w → w * k ≡ (w - 1) * k + k
mul_pred zero k h = absurd (omega arith)
mul_pred (suc w) k h = grind arith

abbrev InMask : Text → Option ℕ → Type 0
InMask m none = Unit
InMask m (some s) = s < length m

InMask-some : (m : Text) (star : Option ℕ) (s : ℕ) → InMask m star → star ≡ some s → s < length m
InMask-some m none s h e = cc
InMask-some m (some r) s h e = ground arith

glob_loop-ne-none :
    (f w : ℕ) (m t : Text) (mi ti bt : ℕ) (star : Option ℕ)
    → mi ≤ length m
    → bt ≤ ti
    → bt + w ≡ length t
    → InMask m star
    → w * (length m + 1) + (length m - mi) < f
    → glob_loop f m t mi ti star bt ≢ none
glob_loop-ne-none zero w m t mi ti bt star hm hb hw hs hf = absurd (omega arith)
glob_loop-ne-none (suc f) w m t mi ti bt star hm hb hw hs hf =
    loop_cases (λ r. r ≢ none) f m t mi ti bt star (λ _. λ e. cc)
      (λ (p, c, ep, ec, _).
        glob_loop-ne-none f w m t (mi + 1) (ti + 1) bt star (omega (arith, get_elem?-lt m mi ep))
          (omega arith) hw hs (omega (arith, get_elem?-lt m mi ep)))
      (λ (p, ep, _) lt.
        glob_loop-ne-none f (length t - ti) m t (mi + 1) ti ti (some mi)
          (omega (arith, get_elem?-lt m mi ep)) (omega arith) (omega arith) (get_elem?-lt m mi ep)
          (omega (
            arith,
            get_elem?-lt m mi ep,
            mul_mono_left (length t - ti) w (length m + 1) (omega arith),
          )))
      (λ _ _. λ e. cc)
      (λ s (lt, _, _) e.
        glob_loop-ne-none f (w - 1) m t (s + 1) (bt + 1) (bt + 1) (some s)
          (omega (arith, InMask-some m star s hs e)) (omega arith) (omega arith)
          (InMask-some m star s hs e) (omega (arith, mul_pred w (length m + 1) (omega arith))))

-- The loop ends within its fuel, whatever the mask and the text.
pub glob_match_total : (m t : Text) → glob_loop (enough m t) m t 0 0 none 0 ≡ some (glob_match m t)
unfolding glob_match
glob_match_total m t = elim (Option-cases (glob_loop (enough m t) m t 0 0 none 0)) [
  | inl e ↦ absurd (
      glob_loop-ne-none (enough m t) (length t) m t 0 0 0 none (omega arith) (omega arith)
        (omega arith) tt (omega arith) e)
  | inr (b, e) ↦ rw e
]

at_stop :
    (m : Text) (mi : ℕ)
    → is_star (get_elem? m mi) ≡ false
    → mi ≤ length m
    → (nat_beq mi (length m) ≡ true) ↔ Matches (drop mi m) []
at_stop m mi other h = elim (Option-cases (get_elem? m mi)) [
  | inl e ↦ (
    λ _. rw (drop_end m mi (get_elem?-ge m mi e)) done,
    λ _. (nat_beq_iff mi (length m)).1 (omega (arith, get_elem?-ge m mi e)),
  )
  | inr (p, e) ↦ (
    λ b. absurd (omega (arith, (nat_beq_iff mi (length m)).0 b, get_elem?-lt m mi e)),
    λ d. absurd (ground (arith, (inv_end (rw (drop_at m mi e) at d)).0)),
  )
]

-- The second loop and the final test: the rest of the mask matches the empty text.
pub skip_stars_iff :
    (f : ℕ) (m : Text) (mi : ℕ)
    → mi ≤ length m
    → length m ≤ mi + f
    → (nat_beq (skip_stars f m mi) (length m) ≡ true) ↔ Matches (drop mi m) []
unfolding skip_stars
skip_stars_iff zero m mi h k =
    (λ _. rw (drop_end m mi (omega arith)) done, λ _. (nat_beq_iff mi (length m)).1 (omega arith))
skip_stars_iff (suc f) m mi h k =
    if_cases (λ r. (nat_beq r (length m) ≡ true) ↔ Matches (drop mi m) [])
      (is_star (get_elem? m mi)) (skip_stars f m (mi + 1)) mi
      (λ star.
        let (p, e, ep) = is_star-AtStar m mi star in
        let (sound, complete) =
          skip_stars_iff f m (mi + 1) (omega (arith, get_elem?-lt m mi e)) (omega arith) in
        let split = drop_at m mi e in
        (λ b. rw split (leave ep (sound b)), λ d. complete (inv_end (rw split at d)).1))
      (λ other. at_stop m mi other h)
