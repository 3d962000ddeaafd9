-- ===== src/Channels.antt =====
-- src/channels.rs: the registered channels, their founders and topics, and their file. A file is its
-- text, `none` where it is missing; a write that fails leaves it as it was.
mod Examples
pub mod Founders
use chonkline.Base.{
  Bool, true, false, not, ◌||◌, Option, none, some, List, [], ◌∷◌, map, ◌==◌, if◌then◌else◌, Text,
  text_eq, codes, Map, lookup, insert, remove, contains_key, ◌>>=◌, Result, ok, err,
}
use chonkline.Str.Split.{split, lines, unlines, join}
use chonkline.Str.Utf8.{as_bytes, from_utf8}
use chonkline.Crypto.Base64.{base64_encode, base64_decode}
use chonkline.State.Casemap.{norm_nick}
use chonkline.Bans.{Disk, is_empty}

pub record ChanReg : Type 0 where
  pub display : Text
  pub founder_display : Text
  pub topic : Text

pub record ChannelRegistry : Type 0 where
  pub path : Option Text
  pub map : Map Text ChanReg

unfoldable pub reg_of_fields : List Text → Option (Text × ChanReg)
reg_of_fields (stored ∷ display ∷ founder ∷ encoded ∷ more) =
    base64_decode (as_bytes encoded) >>= λ bytes. from_utf8 bytes >>= λ topic.
    if is_empty stored || is_empty display || is_empty founder
    then none
    else some
        (norm_nick display, record { display = display; founder_display = founder; topic = topic })
reg_of_fields _ = none

unfoldable pub load_lines : List Text → Map Text ChanReg → Map Text ChanReg
unfolding reg_of_fields
load_lines [] m = m
load_lines (line ∷ rest) m = elim (reg_of_fields (split 9 line)) [
  | none ↦ load_lines rest m
  | some entry ↦ load_lines rest (insert entry.0 entry.1 m)
]

-- `content` is what `read_to_string` gives, if it succeeds
abbrev map_in : Option Text → Option Text → Map Text ChanReg
map_in none content = []
map_in (some p) none = []
map_in (some p) (some text) = load_lines (lines text) []

unfoldable pub load : Option Text → Option Text → ChannelRegistry
unfolding load_lines
load path content = record { path = path; map = map_in path content }

unfoldable pub is_registered : Text → ChannelRegistry → Bool
is_registered chan_key r = contains_key (norm_nick chan_key) r.map

unfoldable pub get : Text → ChannelRegistry → Option ChanReg
get chan_key r = lookup (norm_nick chan_key) r.map

unfoldable pub is_founder : Text → Text → ChannelRegistry → Bool
is_founder chan_key account r = elim (lookup (norm_nick chan_key) r.map) [
  | none ↦ false
  | some reg ↦ norm_nick reg.founder_display == norm_nick account
]

abbrev pub line_of : Text × ChanReg → Text
line_of (key, reg) =
    join (9 ∷ [])
      (key ∷ reg.display ∷ reg.founder_display ∷ base64_encode (as_bytes reg.topic) ∷ [])

unfoldable pub save : ChannelRegistry → Disk → Disk
save r disk = elim r.path [
  | none ↦ disk
  | some p ↦
      if disk.writable then record disk { content = some (unlines (map line_of r.map)) } else disk
]

unfoldable pub register :
    Text → Text → Text → ChannelRegistry × Disk → (ChannelRegistry × Disk) × Result (Unit {0}) Text
unfolding save
register chan_key display founder (r, disk) =
    let reg : ChanReg = record { display = display; founder_display = founder; topic = [] } in
    let r' = record r { map = insert (norm_nick chan_key) reg r.map } in
    if contains_key (norm_nick chan_key) r.map
    then ((r, disk), err (codes "channel already registered"))
    else ((r', save r' disk), ok tt)

unfoldable pub drop_channel : Text → ChannelRegistry × Disk → (ChannelRegistry × Disk) × Bool
unfolding save
drop_channel chan_key (r, disk) =
    let r' = record r { map = remove (norm_nick chan_key) r.map } in
    if contains_key (norm_nick chan_key) r.map
    then ((r', save r' disk), true)
    else ((r, disk), false)

unfoldable pub set_topic : Text → Text → ChannelRegistry × Disk → ChannelRegistry × Disk
unfolding save
set_topic chan_key topic (r, disk) = elim (lookup (norm_nick chan_key) r.map) [
  | none ↦ (r, disk)
  | some reg ↦
      let r' = record r {
        map = insert (norm_nick chan_key) (record reg { topic = topic }) r.map;
      } in
      (r', save r' disk)
]
