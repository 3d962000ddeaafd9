-- ===== src/Bans.antt =====
-- src/bans.rs: address bans (K-lines) and their file. `now` is the clock that `now_secs` reads, in
-- seconds. A file is its text, `none` where it is missing, and a write to a file that cannot be
-- created leaves it as it was. `now_secs() + duration_secs` wraps at 2^64, as in a release build.
pub mod Matching
pub mod Masks
pub mod File
mod Examples
use chonkline.Base.{
  ℕ, ◌+◌, ◌%◌, ◌^◌, Bool, true, false, not, ◌||◌, Option, none, some, List, [], ◌∷◌, ◌++◌, map,
  length, retain, find, ltb, nat_beq, ◌==◌, if◌then◌else◌, Text, text_eq, nat_eq, codes,
}
use chonkline.Glob.{glob_match}
use chonkline.Str.Split.{split, lines, unlines, join}
use chonkline.Str.Decimal.{to_decimal, parse_uint, u64_max}

pub record Ban : Type 0 where
  pub mask : Text
  pub expiry : ℕ
  pub setter : Text
  pub reason : Text

pub record BanStore : Type 0 where
  pub path : Option Text
  pub bans : List Ban

-- the file behind `path`, and whether it can be created
pub record Disk : Type 0 where
  pub content : Option Text
  pub writable : Bool

abbrev pub or_zero : Option ℕ → ℕ
or_zero none = 0
or_zero (some n) = n

-- the `match` on the first four fields; further fields are ignored
unfoldable pub ban_of_fields : List Text → Option Ban
ban_of_fields ([] ∷ exp ∷ setter ∷ reason ∷ more) = none
ban_of_fields ((c ∷ mask) ∷ exp ∷ setter ∷ reason ∷ more) = some (record {
  mask = c ∷ mask;
  expiry = or_zero (parse_uint u64_max exp);
  setter = setter;
  reason = reason;
})
ban_of_fields _ = none

unfoldable pub load_lines : List Text → List Ban
unfolding ban_of_fields
load_lines [] = []
load_lines (line ∷ rest) =
    let more = load_lines rest in
    elim (ban_of_fields (split 9 line)) [ none ↦ more | some b ↦ b ∷ more ]

-- `content` is what `read_to_string` gives, if it succeeds.
abbrev bans_in : Option Text → Option Text → List Ban
bans_in none content = []
bans_in (some p) none = []
bans_in (some p) (some text) = load_lines (lines text)

unfoldable pub load : Option Text → Option Text → BanStore
unfolding load_lines
load path content = record { path = path; bans = bans_in path content }

abbrev pub fields : Ban → List Text
fields b = b.mask ∷ to_decimal b.expiry ∷ b.setter ∷ b.reason ∷ []

-- one line of the file, without its line feed
abbrev pub line_of : Ban → Text
line_of b = join (9 ∷ []) (fields b)

unfoldable pub render : List Ban → Text
render bans = unlines (map line_of bans)

unfoldable pub persist : BanStore → Disk → Disk
unfolding render
persist s disk = elim s.path [
  | none ↦ disk
  | some p ↦ if disk.writable then record disk { content = some (render s.bans) } else disk
]

-- a ban that has not lapsed
abbrev pub is_live : ℕ → Ban → Bool
is_live now b = nat_beq b.expiry 0 || ltb now b.expiry

unfoldable pub expire : ℕ → BanStore → BanStore
expire now s = record s { bans = retain (is_live now) s.bans }

unfoldable pub matching : Text → ℕ → BanStore → BanStore × Option Ban
unfolding expire
matching addr now s = let s' = expire now s in (s', find (λ b. glob_match b.mask addr) s'.bans)

abbrev pub is_empty : Text → Bool
is_empty [] = true
is_empty (c ∷ s) = false

abbrev pub other_mask : Text → Ban → Bool
other_mask mask b = not (b.mask == mask)

abbrev pub expiry_of : ℕ → ℕ → ℕ
expiry_of now duration = if nat_beq duration 0 then 0 else (now + duration) % 2 ^ 64

abbrev pub made : Text → ℕ → Text → Text → ℕ → Ban
made mask duration setter reason now = record {
  mask = mask;
  expiry = expiry_of now duration;
  setter = setter;
  reason = reason;
}

unfoldable pub add : Text → ℕ → Text → Text → ℕ → BanStore × Disk → BanStore × Disk
unfolding persist
add mask duration setter reason now (s, disk) =
    let s' = record s {
      bans = retain (other_mask mask) s.bans ++ made mask duration setter reason now ∷ [];
    } in
    if is_empty mask then (s, disk) else (s', persist s' disk)

-- whether a ban was removed, behind the new state
unfoldable pub remove : Text → BanStore × Disk → (BanStore × Disk) × Bool
unfolding persist
remove mask (s, disk) =
    let s' = record s { bans = retain (other_mask mask) s.bans } in
    let removed = not (nat_beq (length s'.bans) (length s.bans)) in
    ((s', if removed then persist s' disk else disk), removed)

unfoldable pub count : BanStore → ℕ
count s = length s.bans
