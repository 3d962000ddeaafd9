-- ===== src/Bans/Examples.antt =====
-- The tests of src/bans.rs, and the theorems at concrete stores.
use chonkline.Base.{
  ◌^◌, ◌-◌, ◌≡◌, ◌≢◌, refl, true, some, none, inr, [], ◌∷◌, ◌↔◌, codes, arith, Text, All,
}
use chonkline.Glob.{glob_match}
use chonkline.Bans.{Ban, BanStore, Disk, add, made, matching, load}
use chonkline.Bans.Matching.{Hit, Some, Lasts, matching-exact, matching-add, add-overflow_lapses}
use chonkline.Bans.File.{IsStorable, load-add}

abbrev store : BanStore
store = record { path = some (codes "bans.db"); bans = [] }

abbrev disk : Disk
disk = record { content = none; writable = true }

abbrev mask : Text
mask = codes "203.*"

abbrev addr : Text
addr = codes "203.7"

abbrev banned : BanStore × Disk
banned = add mask 0 (codes "oper") (codes "flooding") 100 (store, disk)

mask_hits : glob_match mask addr ≡ true
unfolding glob_match
mask_hits = refl

mask-ne : mask ≢ []
mask-ne e = cc

add-overflow_lapses_example :
    let found =
      matching addr 200 (add mask (2 ^ 64 - 1) (codes "oper") (codes "forever") 100 banned).0 in
    All (λ b. b.mask ≢ mask) found.0.bans × ((b : Ban) → found.1 ≡ some b → b.mask ≢ mask)
add-overflow_lapses_example =
    add-overflow_lapses mask addr (codes "oper") (codes "forever") (2 ^ 64 - 1) 100 200 banned.0
      banned.1 mask-ne (omega arith) (omega arith) (omega arith) (omega arith)

abbrev flood : Ban
flood = made mask 0 (codes "oper") (codes "flooding hard") 100

flood-IsStorable : IsStorable flood
flood-IsStorable = record {
  named = mask-ne;
  mask_plain = omega arith;
  setter_plain = omega arith;
  reason_plain = omega arith;
  expiry_fits = omega arith;
}

load-add_example :
    let after = add mask 0 (codes "oper") (codes "flooding hard") 100 (store, disk) in
    load (some (codes "bans.db")) after.1.content ≡ after.0
load-add_example =
    load-add (codes "bans.db") mask (codes "oper") (codes "flooding hard") 0 100 [] none
      flood-IsStorable tt

-- one ban that has lapsed at 200, one of other addresses, and one that meets the address
abbrev three_bans : BanStore
three_bans = record {
  path = none;
  bans =
      made (codes "*.7") 50 (codes "oper") (codes "for a while") 100
      ∷ made (codes "10.?") 0 (codes "oper") (codes "elsewhere") 100
      ∷ made mask 500 (codes "oper") (codes "flooding") 100
      ∷ [];
}

meets_third :
    (matching addr 200 three_bans).1 ≡ some (made mask 500 (codes "oper") (codes "flooding") 100)
unfolding matching glob_match
meets_third = refl

matching-exact_example :
    ((b : Ban)
      → (matching addr 200 three_bans).1 ≡ some b
      → Hit addr 200 b × Some (λ x. x ≡ b) three_bans.bans)
    × (Some (Hit addr 200) three_bans.bans → (matching addr 200 three_bans).1 ≢ none)
    × ((b : Ban)
        → Some (λ x. x ≡ b) (matching addr 200 three_bans).0.bans
          ↔ (Some (λ x. x ≡ b) three_bans.bans × Lasts 200 b))
matching-exact_example = matching-exact addr 200 three_bans (omega arith)

matching-add_example :
    (matching addr 150 (add mask 60 (codes "oper") (codes "flooding") 100 (three_bans, disk)).0).1
    ≢ none
matching-add_example =
    matching-add mask addr (codes "oper") (codes "flooding") 60 100 150 three_bans disk mask-ne
      mask_hits (omega arith) (inr (omega arith))
