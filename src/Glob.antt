-- ===== src/Glob.antt =====
-- `glob_match` of src/bans.rs: wildcard matching that goes back to the last star only. The two
-- indices and the saved pair are kept as they are; `none` stands for `usize::MAX` in `star`.
pub mod Spec
pub mod Correct
pub mod Sound
pub mod Complete
mod Examples
use chonkline.Base.{
  ℕ, zero, suc, ◌+◌, ◌*◌, Bool, true, false, ◌&&◌, ◌||◌, Option, none, some, List, [], ◌∷◌, length,
  get_elem?, drop, ltb, nat_beq, if◌then◌else◌, Text,
}

-- mi < m.len() && (m[mi] == '?' || m[mi] == t[ti]), where ti < t.len()
abbrev pub matches_one : Option ℕ → Option ℕ → Bool
matches_one (some p) (some c) = nat_beq p b'?' || nat_beq p c
matches_one _ _ = false

-- mi < m.len() && m[mi] == '*'
abbrev pub is_star : Option ℕ → Bool
is_star none = false
is_star (some p) = nat_beq p b'*'

-- the second loop
unfoldable pub skip_stars : ℕ → Text → ℕ → ℕ
skip_stars zero m mi = mi
skip_stars (suc f) m mi =
    let rest = skip_stars f m (mi + 1) in if is_star (get_elem? m mi) then rest else mi

-- The first loop; the outer `none` means that the fuel ran out.
unfoldable pub glob_loop : ℕ → Text → Text → ℕ → ℕ → Option ℕ → ℕ → Option Bool
glob_loop zero m t mi ti star backtrack = none
glob_loop (suc f) m t mi ti star backtrack =
    let done : Option Bool = some (nat_beq (skip_stars (length m) m mi) (length m)) in
    let step = glob_loop f m t (mi + 1) (ti + 1) star backtrack in
    let open_star = glob_loop f m t (mi + 1) ti (some mi) ti in
    let back : Option Bool = elim star [
      | none ↦ some false
      | some s ↦ glob_loop f m t (s + 1) (backtrack + 1) (some s) (backtrack + 1)
    ] in
    if ltb ti (length t)
    then if matches_one (get_elem? m mi) (get_elem? t ti)
      then step
      else if is_star (get_elem? m mi)
      then open_star
      else back
    else done

-- the rounds that are enough for any mask and text
abbrev pub enough : Text → Text → ℕ
enough m t = (length t + 1) * (length m + 1) + length m + 1

abbrev or_false : Option Bool → Bool
or_false none = false
or_false (some b) = b

unfoldable pub glob_match : Text → Text → Bool
unfolding glob_loop skip_stars
glob_match m t = or_false (glob_loop (enough m t) m t 0 0 none 0)
