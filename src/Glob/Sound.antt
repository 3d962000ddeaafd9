-- ===== src/Glob/Sound.antt =====
-- src/bans.rs: from the answer of `glob_match` to the meaning of a mask.
use chonkline.Base.{
  ℕ, zero, suc, ◌+◌, ◌≤◌, ◌<◌, ◌≡◌, inl, inr, true, Option, none, some, length, drop, nat_beq, Text,
  arith, Bool-cases, drop_at, get_elem?-lt, drop_end, nat_beq_iff, elem_at, ap, subst, ◌∙◌,
}
use chonkline.Glob.{glob_loop, glob_match}
use chonkline.Glob.Spec.{Matches, one, leave, take}
use chonkline.Glob.Correct.{AtStar, Fits, loop_cases, skip_stars_iff, glob_match_total}

-- Reading one character is a step of the meaning, also where the mask's star met a star.
Matches-Fits :
    (m t : Text) (mi ti : ℕ)
    → Fits m t mi ti
    → Matches (drop (mi + 1) m) (drop (ti + 1) t)
    → Matches (drop mi m) (drop ti t)
Matches-Fits m t mi ti (p, c, ep, ec, fits) d =
    rw (drop_at m mi ep, drop_at t ti ec)
      (elim (Bool-cases (nat_beq p b'*')) [
        | inl s ↦ let e = (nat_beq_iff p b'*').0 s in take e (leave e d)
        | inr n ↦ one (ground arith) fits d
      ])

-- A saved star may take one more character.
Matches-take :
    (m t : Text) (s bt : ℕ)
    → AtStar m s
    → bt < length t
    → Matches (drop s m) (drop (bt + 1) t)
    → Matches (drop s m) (drop bt t)
Matches-take m t s bt (p, e, star) lt d =
    let (c, ec) = elem_at t bt lt in
    rw (drop_at t bt ec, drop_at m s e) (take star (rw (drop_at m s e) at d))

pub Matches-leave :
    (m : Text) (s : ℕ) {t : Text} → AtStar m s → Matches (drop (s + 1) m) t → Matches (drop s m) t
Matches-leave m s (p, e, star) d = rw (drop_at m s e) (leave star d)

-- `G` is the question asked at the start.
module _ (G : Type 0) (m t : Text) where
  abbrev Saved : Option ℕ → ℕ → Type 0
  Saved none bt = Unit
  Saved (some s) bt = AtStar m s × (Matches (drop s m) (drop bt t) → G)

  record Inv (mi ti bt : ℕ) (star : Option ℕ) : Type 0 where
    inside : mi ≤ length m
    behind : bt ≤ ti
    now : Matches (drop mi m) (drop ti t) → G
    saved : Saved star bt

  Inv-back : (s bt : ℕ) → bt < length t → Saved (some s) bt → Inv (s + 1) (bt + 1) (bt + 1) (some s)
  Inv-back s bt lt (at_star, meant) =
      let later : Matches (drop s m) (drop (bt + 1) t) → G =
        λ d. meant (Matches-take m t s bt at_star lt d) in
      record {
        inside = omega (arith, get_elem?-lt m s at_star.1);
        behind = omega arith;
        now = λ d. later (Matches-leave m s at_star d);
        saved = (at_star, later);
      }

  glob_loop-sound :
      (f mi ti bt : ℕ) (star : Option ℕ)
      → Inv mi ti bt star
      → glob_loop f m t mi ti star bt ≡ some true
      → G
  glob_loop-sound zero mi ti bt star i = λ h. unfold glob_loop in cc
  glob_loop-sound (suc f) mi ti bt star i =
      loop_cases (λ r. r ≡ some true → G) f m t mi ti bt star
        (λ ended h. i.now (
          rw (drop_end t ti ended)
            ((skip_stars_iff (length m) m mi i.inside (omega arith)).0 (ground arith))))
        (λ fits. glob_loop-sound f (mi + 1) (ti + 1) bt star (record {
          inside = omega (arith, get_elem?-lt m mi fits.2);
          behind = omega arith;
          now = λ d. i.now (Matches-Fits m t mi ti fits d);
          saved = i.saved;
        }))
        (λ at_star lt. glob_loop-sound f (mi + 1) ti ti (some mi) (record {
          inside = omega (arith, get_elem?-lt m mi at_star.1);
          behind = omega arith;
          now = λ d. i.now (Matches-leave m mi at_star d);
          saved = (at_star, i.now);
        }))
        (λ _ _ h. cc)
        (λ s (lt, _, _) e.
          glob_loop-sound f (s + 1) (bt + 1) (bt + 1) (some s)
            (Inv-back s bt (omega arith) (subst (λ o. Saved o bt) e i.saved)))

-- What the matcher accepts matches the mask, for every mask and every text.
pub glob_match-sound : (m t : Text) → glob_match m t ≡ true → Matches m t
glob_match-sound m t h =
    glob_loop-sound (Matches m t) m t _ 0 0 0 none
      (record { inside = omega arith; behind = omega arith; now = λ d. d; saved = tt })
      (glob_match_total m t ∙ ap some h)
