-- ===== src/State/Channel/Flags.antt =====
-- src/state.rs: the modes of a channel, as they are set, asked for and shown.
use chonkline.Base.{
  ℕ, ◌≡◌, refl, ap, Bool, true, false, Option, List, [], ◌∷◌, ◌++◌, map, nat_beq, if◌then◌else◌,
  Text, arith, contains, nat_eq, codes,
}
use chonkline.State.Client.{letter_if}
use chonkline.State.Channel.{Chn, burst_mode_parts, foreign_mode_parts, clear_all_modes, flags_of}
use chonkline.State.Channel.Edits.{set_flag, flag_is_set, mode_string}

-- A flag among i, n, p, s, t and m reads as it was set, and any other flag reads as before.
pub flag_is_set-set_flag :
    (ch other : ℕ) (on : Bool) (c : Chn)
    → contains ch (codes "inpstm") ≡ true
    → flag_is_set other (set_flag ch on c) ≡ (if nat_beq other ch then on else flag_is_set other c)
unfolding set_flag flag_is_set
flag_is_set-set_flag ch other on c h = ground arith

behind_letter :
    (b : Bool) (x y : ℕ) (s : Text) → contains y s ≡ true → contains y (letter_if b x ++ s) ≡ true
behind_letter true x y s h = ground arith
behind_letter false x y s h = h

-- The flag R is set by `set_flag` and never reads as set: the mode string shows it all the same.
pub flag_is_set-regonly :
    (c : Chn)
    → (flag_is_set b'R' (set_flag b'R' true c) ≡ false)
      × (contains b'R' (mode_string (set_flag b'R' true c)) ≡ true)
unfolding set_flag flag_is_set mode_string
flag_is_set-regonly c = (
  refl,
  behind_letter c.invite_only b'i' b'R' _ (
      behind_letter c.nomsg b'n' b'R' _ (
        behind_letter c.private b'p' b'R' _ (
          behind_letter c.secret b's' b'R' _
            (behind_letter c.op_topic b't' b'R' _ (behind_letter c.moderated b'm' b'R' _ refl))))),
)

flags_of-map : (m : List (ℕ × Option Text)) → flags_of m ≡ map (λ p. p.0) m
flags_of-map [] = refl
flags_of-map ((ch, p) ∷ m) = ap (◌∷◌ ch) (flags_of-map m)

-- The flags that a burst tells a peer are the modes that a client of ours is told.
pub burst_mode_parts-mode_string : (c : Chn) → (burst_mode_parts c).0 ≡ mode_string c
unfolding burst_mode_parts mode_string foreign_mode_parts
burst_mode_parts-mode_string c = rw (flags_of-map c.foreign_modes) refl

-- A channel without modes is told to a peer as such, without a parameter.
pub burst_mode_parts-clear_all_modes :
    (c : Chn) → burst_mode_parts (clear_all_modes c) ≡ (codes "+", [])
unfolding burst_mode_parts foreign_mode_parts clear_all_modes
burst_mode_parts-clear_all_modes c = refl
