-- ===== src/Glob/Examples.antt =====
-- The tests of src/bans.rs and of src/state.rs on masks, and the theorems at concrete masks.
use chonkline.Base.{◌≡◌, ◌↔◌, refl, true, false, codes, arith}
use chonkline.Glob.{glob_match}
use chonkline.Glob.Spec.{Matches}
use chonkline.Glob.Sound.{glob_match-sound}
use chonkline.Glob.Complete.{glob_match_iff}

glob_matches_wildcards :
    (glob_match (codes "203.0.113.*") (codes "203.0.113.7") ≡ true)
    × (glob_match (codes "203.0.113.?") (codes "203.0.113.77") ≡ false)
    × (glob_match (codes "*.113.7") (codes "203.0.113.7") ≡ true)
unfolding glob_match
glob_matches_wildcards = (refl, refl, refl)

edu : glob_match (codes "*!*@*.edu") (codes "alice!bob@example.edu") ≡ true
unfolding glob_match
edu = refl

-- A username that begins with a star is outside the mask that bans every user of its host.
star_user_escapes : glob_match (codes "*!*@example.edu") (codes "alice!*bob@example.edu") ≡ false
unfolding glob_match
star_user_escapes = refl

glob_match-sound_example : Matches (codes "*!*@*.edu") (codes "alice!bob@example.edu")
glob_match-sound_example = glob_match-sound (codes "*!*@*.edu") (codes "alice!bob@example.edu") edu

glob_match_iff_example :
    (glob_match (codes "a?c") (codes "abc") ≡ true) ↔ Matches (codes "a?c") (codes "abc")
glob_match_iff_example = glob_match_iff (codes "a?c") (codes "abc") (omega arith)
