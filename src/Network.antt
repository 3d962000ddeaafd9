-- ===== src/Network.antt =====
-- src/network.rs: the other servers of the tree and the users they own. A `BTreeSet` of texts is a
-- list without repetition; where the program iterates over a map, the order is that of the list.
-- `u64` counters wrap at 2^64.
pub mod Uids
pub mod Locals
pub mod Nicks
pub mod Splits
pub mod Reach
mod Examples
use chonkline.Base.{
  ℕ, zero, suc, ◌+◌, ◌-◌, ◌*◌, ◌/◌, ◌%◌, ◌^◌, max, Bool, true, false, not, ◌&&◌, ◌||◌, Option, none,
  some, List, [], ◌∷◌, ◌++◌, map, length, retain, any, all, take, drop, ltb, nat_beq, ◌==◌,
  if◌then◌else◌, Text, text_eq, nat_eq, contains, Map, lookup, insert, remove,
}
use chonkline.Str.{is_ascii_digit, is_ascii_uppercase}

abbrev pub upper_or_digit : ℕ → Bool
upper_or_digit c = is_ascii_uppercase c || is_ascii_digit c

abbrev first_is_digit : Text → Bool
first_is_digit [] = false
first_is_digit (c ∷ s) = is_ascii_digit c

unfoldable pub valid_sid : Text → Bool
valid_sid s = nat_beq (length s) 3 && first_is_digit s && all upper_or_digit (drop 1 s)

unfoldable pub valid_uid : Text → Bool
valid_uid s = nat_beq (length s) 6 && all upper_or_digit s

-- Nine bytes in the source, which every text that passes has. Where the fourth byte of a text of nine bytes
-- stands inside a character, the slice `&s[..3]` panics in the source, and this is false.
unfoldable pub valid_uuid : Text → Bool
valid_uuid s = nat_beq (length s) 9 && valid_sid (take 3 s) && valid_uid (drop 3 s)

pub record RemoteServer : Type 0 where
  pub sid : Text
  pub name : Text
  pub desc : Text
  pub hop : ℕ
  pub via : Text
  pub bursting : Bool

pub record RemoteUser : Type 0 where
  pub uuid : Text
  pub sid : Text
  pub nick : Text
  pub nick_key : Text
  pub user : Text
  pub host : Text
  pub real_host : Text
  pub realname : Text
  pub ts : ℕ
  pub modes : Text
  pub chans : List Text
  pub away : Option Text
  pub oper : Bool

pub record Network : Type 0 where
  pub sid : Text
  pub servers : Map Text RemoteServer
  pub users : Map Text RemoteUser
  pub nick_index : Map Text Text
  pub local_uuids : Map ℕ Text
  pub next_uid : ℕ
  pub next_membid : ℕ

abbrev pub new : Text → Network
new sid = record {
  sid = sid;
  servers = [];
  users = [];
  nick_index = [];
  local_uuids = [];
  next_uid = 0;
  next_membid = 1;
}

-- `UID_ALPHABET[i]`
unfoldable pub uid_alphabet : ℕ → ℕ
uid_alphabet i = if ltb i 26 then b'A' + i else b'0' + (i - 26)

-- the slots from the last to the first, in front of those that are filled
unfoldable pub uid_slots : ℕ → ℕ → Text → Text
uid_slots zero n out = out
uid_slots (suc k) n out = uid_slots k (n / 36) (uid_alphabet (n % 36) ∷ out)

unfoldable pub next_uid : Network → Network × Text
next_uid net = (record net { next_uid = (net.next_uid + 1) % 2 ^ 64 }, uid_slots 6 net.next_uid [])

unfoldable pub uuid_for_local : ℕ → Network → Network × Text
uuid_for_local id net = elim (lookup id net.local_uuids) [
  | some existing ↦ (net, existing)
  | none ↦
      let (net', uid) = next_uid net in
      let uuid = net'.sid ++ uid in
      (record net' { local_uuids = insert id uuid net'.local_uuids }, uuid)
]

unfoldable pub next_membid : Network → Network × ℕ
next_membid net =
    (record net { next_membid = max ((net.next_membid + 1) % 2 ^ 64) 1 }, net.next_membid)

abbrev owner_in : Text → Map ℕ Text → Option ℕ
owner_in uuid [] = none
owner_in uuid ((id, v) ∷ m) = let rest = owner_in uuid m in if v == uuid then some id else rest

unfoldable pub local_uuid_owner : Text → Network → Option ℕ
local_uuid_owner uuid net = owner_in uuid net.local_uuids

unfoldable pub forget_local : ℕ → Network → Network
forget_local id net = record net { local_uuids = remove id net.local_uuids }

unfoldable pub add_server : RemoteServer → Network → Network
add_server s net = record net { servers = insert s.sid s net.servers }

unfoldable pub add_user : RemoteUser → Network → Network
add_user u net = record net {
  nick_index = insert u.nick_key u.uuid net.nick_index;
  users = insert u.uuid u net.users;
}

abbrev user_at : Option Text → Network → Option RemoteUser
user_at none net = none
user_at (some uuid) net = lookup uuid net.users

unfoldable pub by_nick : Text → Network → Option RemoteUser
by_nick key net = user_at (lookup key net.nick_index) net

-- `self.nick_index.get(key) == Some(uuid)`
abbrev pub points_at : Option Text → Text → Bool
points_at none uuid = false
points_at (some v) uuid = v == uuid

-- the index without the nickname, where that is still the user's
abbrev pub unindex : Text → Text → Map Text Text → Map Text Text
unindex key uuid index = if points_at (lookup key index) uuid then remove key index else index

unfoldable pub remove_user : Text → Network → Network × Option RemoteUser
remove_user uuid net = elim (lookup uuid net.users) [
  | none ↦ (net, none)
  | some u ↦ (
    record net {
      users = remove uuid net.users;
      nick_index = unindex u.nick_key u.uuid net.nick_index;
    },
    some u,
  )
]

unfoldable pub rename_user : Text → Text → Text → Network → Network × Bool
rename_user uuid new_nick new_key net = elim (lookup uuid net.users) [
  | none ↦ (net, false)
  | some u ↦ (
    record net {
      users = insert uuid (record u { nick = new_nick; nick_key = new_key }) net.users;
      nick_index = insert new_key uuid (unindex u.nick_key uuid net.nick_index);
    },
    true,
  )
]

abbrev pub values {ℓ} : {K V : Type ℓ} → Map K V → List V
values [] = []
values ((k, v) ∷ m) = v ∷ values m

-- the SIDs of the servers reached through one that is gone, and not yet gone themselves
abbrev pub next_gone : List Text → List RemoteServer → List Text
next_gone gone [] = []
next_gone gone (s ∷ servers) =
    let rest = next_gone gone servers in
    if contains s.via gone && not (contains s.sid gone) then s.sid ∷ rest else rest

abbrev pub no_items : List Text → Bool
no_items [] = true
no_items (x ∷ xs) = false

-- the loop of `split_server`; `none` means that the fuel ran out
unfoldable pub gone_loop : ℕ → List RemoteServer → List Text → Option (List Text)
gone_loop zero servers gone = none
gone_loop (suc f) servers gone =
    let next = next_gone gone servers in
    let more = gone_loop f servers (gone ++ next) in if no_items next then some gone else more

abbrev pub or_start : List Text → Option (List Text) → List Text
or_start gone none = gone
or_start gone (some all_gone) = all_gone

-- one round for each server is enough, and one to see that nothing is left
unfoldable pub gone_from : Text → Network → List Text
gone_from sid net =
    or_start (sid ∷ []) (gone_loop (length net.servers + 1) (values net.servers) (sid ∷ []))

abbrev pub remove_all : List Text → Map Text RemoteServer → Map Text RemoteServer
remove_all [] m = m
remove_all (s ∷ gone) m = remove_all gone (remove s m)

abbrev pub uuids_on : List Text → List RemoteUser → List Text
uuids_on gone [] = []
uuids_on gone (u ∷ users) =
    let rest = uuids_on gone users in if contains u.sid gone then u.uuid ∷ rest else rest

unfoldable pub remove_users : List Text → Network → Network
remove_users [] net = net
remove_users (uuid ∷ uuids) net = remove_users uuids (remove_user uuid net).0

unfoldable pub split_server : Text → Network → Network × List Text
split_server sid net =
    let gone = gone_from sid net in
    let net' = record net { servers = remove_all gone net.servers } in
    let lost = uuids_on gone (values net'.users) in (remove_users lost net', lost)

abbrev pub on_channel : Text → RemoteUser → Bool
on_channel key u = contains key u.chans

unfoldable pub members_of : Text → Network → List Text
members_of key net = map (λ u. u.uuid) (retain (on_channel key) (values net.users))

-- `collect_subtree_users`
unfoldable pub collect_subtree_users : Text → Network → Network × List Text
collect_subtree_users sid net =
    let gone = gone_from sid net in
    let net' = record net { servers = remove_all gone net.servers } in
    (net', uuids_on gone (values net'.users))

-- the users that are removed, as they were
unfoldable pub take_users : List Text → Network → Network × List RemoteUser
take_users [] net = (net, [])
take_users (uuid ∷ uuids) net =
    let (net1, user) = remove_user uuid net in
    let (net2, rest) = take_users uuids net1 in
    (net2, elim user [ none ↦ rest | some u ↦ u ∷ rest ])

unfoldable pub split_server_detailed : Text → Network → Network × List RemoteUser
split_server_detailed sid net =
    let (net', uuids) = collect_subtree_users sid net in take_users uuids net'
