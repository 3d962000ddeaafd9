-- ===== src/Glob/Complete.antt =====
-- src/bans.rs: from the meaning of a mask to the answer of `glob_match`, and texts that hold a star.
use chonkline.Base.{
  ℕ, zero, suc, ◌+◌, ◌*◌, ◌≤◌, ◌≡◌, ◌≢◌, ◌↔◌, inl, inr, refl, true, false, Option, none, some, [],
  ◌∷◌, length, get_elem?, drop, Text, arith, Bool-cases, Option-cases, drop_at, get_elem?-lt,
  get_elem?-ge, drop_end, elem_at, ap, subst, ◌∙◌, All, All-get_elem?,
}
use chonkline.Glob.{glob_loop, glob_match, enough}
use chonkline.Glob.Spec.{
  Matches, done, leave, take, inv_nil, inv_one, inv_end, must_take, star_star, star_after,
}
use chonkline.Glob.Correct.{AtStar, Fits, Mismatch, loop_cases, skip_stars_iff, glob_match_total}
use chonkline.Glob.Sound.{glob_match-sound}

-- no character of the text is a star
abbrev pub StarFree : Text → Type 0
StarFree = All (λ c. c ≢ b'*')

-- Where the loop goes back, nothing here matches.
Mismatch-not : (m t : Text) (mi ti : ℕ) → Mismatch m t mi ti → ¬ Matches (drop mi m) (drop ti t)
Mismatch-not m t mi ti (lt, no_fit, no_star) d =
    let (c, ec) = elem_at t ti lt in
    elim (Option-cases (get_elem? m mi)) [
      | inl e ↦ clash c (inv_nil (rw (drop_at t ti ec) at d) (drop_end m mi (get_elem?-ge m mi e)))
      | inr (p, e) ↦
          ground
            (arith, inv_one (rw (drop_at m mi e, drop_at t ti ec) at d) (ground (arith, e)), ec, e)
    ]
  where
    clash : (c : ℕ) {r : Text} → c ∷ r ≡ [] → ⊥
    clash c h = cc

-- A character of the mask that fits is no star where the text has none.
Fits-ne-star : (m t : Text) (mi ti : ℕ) (fits : Fits m t mi ti) → StarFree t → fits.0 ≢ b'*'
Fits-ne-star m t mi ti (p, c, ep, ec, h) free e =
    absurd (ground (arith, All-get_elem? (λ x. x ≢ b'*') t ti free ec))

star_matches : (t : Text) → Matches (b'*' ∷ []) t
star_matches [] = leave refl done
star_matches (c ∷ t) = take refl (star_matches t)

module _ (G : Type 0) (m t : Text) (free : StarFree t) where
  abbrev Saved : ℕ → ℕ → Option ℕ → ℕ → Type 0
  Saved mi ti none bt = G → Matches (drop mi m) (drop ti t)
  Saved mi ti (some s) bt =
      AtStar m s
      × (G → Matches (drop s m) (drop bt t))
      × (Matches (drop (s + 1) m) (drop bt t) → Matches (drop mi m) (drop ti t))

  record Inv (mi ti bt : ℕ) (star : Option ℕ) : Type 0 where
    inside : mi ≤ length m
    behind : bt ≤ ti
    later : G → Matches (b'*' ∷ drop mi m) (drop ti t)
    saved : Saved mi ti star bt

  past :
      (mi ti : ℕ)
      → Fits m t mi ti
      → Matches (drop mi m) (drop ti t)
      → Matches (drop (mi + 1) m) (drop (ti + 1) t)
  past mi ti fits d =
      let (p, c, ep, ec, h) = fits in
      (inv_one (rw (drop_at m mi ep, drop_at t ti ec) at d) (Fits-ne-star m t mi ti fits free)).1

  later_step :
      (mi ti : ℕ)
      → Fits m t mi ti
      → Matches (b'*' ∷ drop mi m) (drop ti t)
      → Matches (b'*' ∷ drop (mi + 1) m) (drop (ti + 1) t)
  later_step mi ti fits d =
      let (p, c, ep, ec, h) = fits in
      star_after c (drop (ti + 1) t) (rw (drop_at m mi ep, drop_at t ti ec) at d) refl
        (Fits-ne-star m t mi ti fits free)

  Saved-step :
      (mi ti bt : ℕ) (star : Option ℕ)
      → Fits m t mi ti
      → Saved mi ti star bt
      → Saved (mi + 1) (ti + 1) star bt
  Saved-step mi ti bt none fits s = λ g. past mi ti fits (s g)
  Saved-step mi ti bt (some r) fits (at_star, kept, down) =
      (at_star, kept, λ d. past mi ti fits (down d))

  Inv-open :
      (mi ti bt : ℕ) (star : Option ℕ)
      → AtStar m mi
      → Inv mi ti bt star
      → Inv (mi + 1) ti ti (some mi)
  Inv-open mi ti bt star (p, e, is_star) i = record {
    inside = omega (arith, get_elem?-lt m mi e);
    behind = omega arith;
    later = λ g. rw (← is_star, ← drop_at m mi e) (at_star_here g);
    saved = ((p, e, is_star), at_star_here, λ d. d);
  }
    where
      at_star_here : G → Matches (drop mi m) (drop ti t)
      at_star_here g =
          rw (drop_at m mi e) (star_star (rw (drop_at m mi e) at (i.later g)) refl is_star)

  Inv-back :
      (s mi ti bt : ℕ)
      → bt ≤ ti
      → Mismatch m t mi ti
      → Saved mi ti (some s) bt
      → Inv (s + 1) (bt + 1) (bt + 1) (some s)
  Inv-back s mi ti bt behind miss ((p, e, is_star), kept, down) = record {
    inside = omega (arith, get_elem?-lt m s e);
    behind = omega arith;
    later = λ g. rw (← is_star, ← drop_at m s e) (moved g);
    saved = ((p, e, is_star), moved, λ d. d);
  }
    where
      moved : G → Matches (drop s m) (drop (bt + 1) t)
      moved g =
          let (c, ec) = elem_at t bt (omega (arith, miss.0)) in
          rw (drop_at m s e) (
            must_take (rw (drop_at m s e, drop_at t bt ec) at (kept g)) is_star
              (λ d. Mismatch-not m t mi ti miss (down (rw (drop_at t bt ec) d))))

  glob_loop_complete :
      (f mi ti bt : ℕ) (star : Option ℕ)
      → Inv mi ti bt star
      → glob_loop f m t mi ti star bt ≡ some false
      → ¬ G
  glob_loop_complete zero mi ti bt star i = λ h. unfold glob_loop in cc
  glob_loop_complete (suc f) mi ti bt star i =
      loop_cases (λ r. r ≡ some false → ¬ G) f m t mi ti bt star
        (λ ended h g.
          let rest = (inv_end (rw (drop_end t ti ended) at (i.later g))).1 in
          let accepts = (skip_stars_iff (length m) m mi i.inside (omega arith)).1 rest in
          ground (arith, accepts))
        (λ fits. glob_loop_complete f (mi + 1) (ti + 1) bt star (record {
          inside = omega (arith, get_elem?-lt m mi fits.2);
          behind = omega arith;
          later = λ g. later_step mi ti fits (i.later g);
          saved = Saved-step mi ti bt star fits i.saved;
        }))
        (λ at_star lt.
          glob_loop_complete f (mi + 1) ti ti (some mi) (Inv-open mi ti bt star at_star i))
        (λ miss e _ g. Mismatch-not m t mi ti miss (subst (λ o. Saved mi ti o bt) e i.saved g))
        (λ s miss e.
          glob_loop_complete f (s + 1) (bt + 1) (bt + 1) (some s)
            (Inv-back s mi ti bt i.behind miss (subst (λ o. Saved mi ti o bt) e i.saved)))

-- Where no character of the text is a star, the matcher accepts exactly the texts that the mask
-- means.
pub glob_match_iff : (m t : Text) → StarFree t → (glob_match m t ≡ true) ↔ Matches m t
glob_match_iff m t free = (
  glob_match-sound m t,
  λ d. elim (Bool-cases (glob_match m t)) [
    | inl yes_it ↦ yes_it
    | inr no_it ↦ absurd (
        glob_loop_complete (Matches m t) m t free _ 0 0 0 none
          (record {
            inside = omega arith;
            behind = omega arith;
            later = leave refl;
            saved = λ g. g;
          })
          (glob_match_total m t ∙ ap some no_it) d)
  ],
)

two_rounds :
    (f c : ℕ) (t : Text)
    → glob_loop (suc (suc f)) (b'*' ∷ []) (b'*' ∷ c ∷ t) 0 0 none 0 ≡ some false
unfolding glob_loop
two_rounds f c t = ground arith

-- Where the text has a star, a star of the mask is first taken for that character, and the mask
-- no longer matches a run: `*` does not accept a longer text that begins with a star.
pub glob_match-star_in_text :
    (c : ℕ) (t : Text)
    → Matches (b'*' ∷ []) (b'*' ∷ c ∷ t) × (glob_match (b'*' ∷ []) (b'*' ∷ c ∷ t) ≡ false)
unfolding glob_match
glob_match-star_in_text c t =
    let e : enough (b'*' ∷ []) (b'*' ∷ c ∷ t) ≡ suc (suc (length t * 2 + 6)) = omega arith in
    (star_matches (b'*' ∷ c ∷ t), rw (e, two_rounds (length t * 2 + 6) c t))
