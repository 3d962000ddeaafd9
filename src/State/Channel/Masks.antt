-- ===== src/State/Channel/Masks.antt =====
-- src/state.rs: the mask lists of a channel.
use chonkline.Base.{
  ◌≡◌, ◌≢◌, refl, ap, ◌∙◌, true, false, not, none, List, [], ◌∷◌, ◌++◌, length, retain, find, Text,
  text_eq, nat_eq, ltb, ◌==◌, contains, beq_refl, text_beq_iff, arith, if_cases, Bool-cases, inl,
  inr, length-retain-le,
}
use chonkline.State.Casemap.{norm_nick, norm_nick_idem}
use chonkline.State.Client.{Cx, matches_ban}
use chonkline.State.Channel.{Chn, ban_match}
use chonkline.State.Channel.Edits.{add_mask, remove_mask, add_ban, remove_ban}

not_kept : (m : Text) (masks : List Text) → contains m (retain (λ b. not (b == m)) masks) ≡ false
not_kept m [] = refl
not_kept m (b ∷ masks) = ground (arith, not_kept m masks)

-- something is dropped exactly if it is there
dropped :
    (m : Text) (masks : List Text)
    → ltb (length (retain (λ b. not (b == m)) masks)) (length masks) ≡ contains m masks
dropped m [] = refl
dropped m (b ∷ masks) = ground (arith, dropped m masks, length-retain-le (λ b. not (b == m)) masks)

-- A ban that is removed is gone, however the mask is written, and the answer says whether it was
-- there.
pub remove_ban-Removed :
    (mask : Text) (c : Chn)
    → (contains (norm_nick mask) (remove_ban mask c).0.bans ≡ false)
      × ((remove_ban mask c).1 ≡ contains (norm_nick mask) c.bans)
unfolding remove_ban remove_mask
remove_ban-Removed mask c = (not_kept (norm_nick mask) c.bans, dropped (norm_nick mask) c.bans)

matches_ban-norm : (mask : Text) (t : Cx) → matches_ban (norm_nick mask) t ≡ matches_ban mask t
unfolding matches_ban
matches_ban-norm mask t = rw (norm_nick_idem mask) refl

-- the list finds the user once it has the mask
found :
    (m : Text) (t : Cx) (masks : List Text)
    → contains m masks ≡ true
    → matches_ban m t ≡ true
    → find (λ b. matches_ban b t) masks ≢ none
found m t [] h k = cc
found m t (b ∷ masks) h k = elim (Bool-cases (matches_ban b t)) [
  | inl e ↦ rw e (λ n. cc)
  | inr e ↦ rw e (elim (Bool-cases (b == m)) [
    | inl same ↦
        let one : b ≡ m = (text_beq_iff b m).0 same in
        let hit : matches_ban b t ≡ true = ap (λ x. matches_ban x t) one ∙ k in cc
    | inr other ↦ found m t masks (rw other at h) k
  ])
]

last_added : (m : Text) (masks : List Text) → contains m (masks ++ m ∷ []) ≡ true
last_added m [] = rw (beq_refl m) refl
last_added m (b ∷ masks) = ground (arith, last_added m masks)

add_mask-contains :
    (mask : Text) (masks : List Text) → contains (norm_nick mask) (add_mask mask masks) ≡ true
unfolding add_mask
add_mask-contains mask masks =
    if_cases (λ ms. contains (norm_nick mask) ms ≡ true) (contains (norm_nick mask) masks) masks _
      (λ e. e) (λ _. last_added (norm_nick mask) masks)

-- A user whom a mask matches is banned once the mask is added, in whatever case it is written.
pub add_ban-matched :
    (mask : Text) (c : Chn) (t : Cx)
    → matches_ban mask t ≡ true
    → ban_match t (add_ban mask c) ≢ none
unfolding add_ban ban_match
add_ban-matched mask c t h =
    found (norm_nick mask) t (add_mask mask c.bans) (add_mask-contains mask c.bans)
      (matches_ban-norm mask t ∙ h)
