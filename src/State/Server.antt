-- ===== src/State/Server.antt =====
-- src/state.rs: the shared state of the server, without its configuration, its statistics of traffic
-- and the capture of replies. Clock readings are arguments. A connection's `close_notify` is not part
-- of its record, so `evict` only takes the record out.
pub mod Deserted
pub mod Tables
pub mod Identities
pub mod Reach
mod Examples
use chonkline.Base.{
  ℕ, zero, suc, ◌+◌, ◌-◌, ◌^◌, max, min, Bool, true, false, not, ◌&&◌, ◌||◌, Option, none, some,
  List, [], ◌∷◌, ◌++◌, map, length, reverse, find, any, retain, ltb, leb, nat_beq, if◌then◌else◌,
  Text, text_eq, nat_eq, ◌==◌, contains, Map, lookup, insert, remove, contains_key, codes,
}
use chonkline.Base.Keys.{values, map_values}
use chonkline.Network as Net
use chonkline.Network.{Network}
use chonkline.State.Casemap.{norm_nick}
use chonkline.State.Sets.{set_remove}
use chonkline.State.Client.{Cx, no_caps}
use chonkline.State.Channel
use chonkline.State.Channel.{Chn, burst_mode_parts}

pub record HistEntry : Type 0 where
  pub old_key : Text
  pub new_key : Text
  pub cx_id : ℕ
  pub at : ℕ

abbrev pub history_cap : ℕ
history_cap = 512

abbrev pub rename_window : ℕ
rename_window = 120

pub record ServerState : Type 0 where
  pub name : Text
  pub users : Map Text Cx
  pub unreg : Map ℕ Cx
  pub chans : Map Text Chn
  pub history : List HistEntry
  pub network : Network
  pub total_connections : ℕ
  pub peak_users : ℕ

abbrev pub new : Text → Text → ServerState
new name sid = record {
  name = name;
  users = [];
  unreg = [];
  chans = [];
  history = [];
  network = Net.new sid;
  total_connections = 0;
  peak_users = 0;
}

-- `saturating_add(1)` on `u64`
unfoldable pub note_connection : ServerState → ServerState
note_connection st = record st { total_connections = min (st.total_connections + 1) (2 ^ 64 - 1) }

-- the latest change from this nickname within the window
abbrev pub recent_from : Text → ℕ → HistEntry → Bool
recent_from cur now h = h.old_key == cur && leb (now - h.at) rename_window

-- the rounds of `lookup`, and the last look behind them
unfoldable pub lookup_hops : ℕ → Text → ℕ → ServerState → Option Cx
lookup_hops zero cur now st = lookup cur st.users
lookup_hops (suc rounds) cur now st = elim (lookup cur st.users) [
  | some u ↦ some u
  | none ↦ elim (find (recent_from cur now) (reverse st.history)) [
    | some h ↦ lookup_hops rounds h.new_key now st
    | none ↦ none
  ]
]

unfoldable pub lookup_nick : Text → ℕ → ServerState → Option Cx
lookup_nick key now st = lookup_hops 8 key now st

unfoldable pub visible : Cx → Cx → Bool
visible req u =
    if nat_beq req.id u.id || req.oper
    then true
    else if not u.invis
    then true
    else any (λ c. contains c u.chans) req.chans

unfoldable pub park_new : ℕ → Text → Text → Option Text → ServerState → ServerState
park_new id host real_host cert_fp st =
    let cx : Cx = record {
      id = id;
      nick = [];
      nick_key = [];
      user = [];
      host = host;
      real_host = real_host;
      realname = [];
      registered = false;
      account = none;
      caps = no_caps;
      sasl_mech = none;
      cert_fp = cert_fp;
      pending_nick = none;
      pending_user = none;
      cap_negotiating = false;
      cap_gated_welcome = false;
      batch_seq = 0;
      reg_challenged = false;
      reg_verified = false;
      away = none;
      invis = false;
      wallop = false;
      srvnotice = false;
      oper = false;
      bot = false;
      chans = [];
    } in
    record st { unreg = insert id cx st.unreg }

abbrev pub has_id : ℕ → Cx → Bool
has_id id u = nat_beq u.id id

unfoldable pub find_by_id : ℕ → ServerState → Option Cx
find_by_id id st = elim (lookup id st.unreg) [
  | some u ↦ some u
  | none ↦ find (has_id id) (values st.users)
]

-- the record that `find_by_id_mut` finds, changed
abbrev pub change_if : (Cx → Bool) → (Cx → Cx) → Map Text Cx → Map Text Cx
change_if p f [] = []
change_if p f ((k, u) ∷ m) =
    let rest = change_if p f m in if p u then (k, f u) ∷ m else (k, u) ∷ rest

unfoldable pub change_by_id : ℕ → (Cx → Cx) → ServerState → ServerState
change_by_id id f st = elim (lookup id st.unreg) [
  | some u ↦ record st { unreg = insert id (f u) st.unreg }
  | none ↦ record st { users = change_if (has_id id) f st.users }
]

-- the record of a connection that registers
abbrev pub registered_as : Text → Text → Text → Text → Cx → Cx
registered_as nick user host realname cx = record cx {
  nick = nick;
  nick_key = norm_nick nick;
  user = user;
  host = host;
  realname = realname;
  registered = true;
}

unfoldable pub register : ℕ → Text → Text → Text → Text → ServerState → ServerState × Option Cx
register id nick user host realname st = elim (lookup id st.unreg) [
  | none ↦ (st, none)
  | some cx ↦
      let key = norm_nick nick in
      let users = insert key (registered_as nick user host realname cx) st.users in
      let st' = record st {
        unreg = remove id st.unreg;
        users = users;
        peak_users = max st.peak_users (length users);
      } in
      if contains_key key st.users
      then (record st { unreg = insert id cx (remove id st.unreg) }, none)
      else (note_connection st', lookup key users)
]

unfoldable pub nick_free : Text → ServerState → Bool
nick_free key st = not (contains_key key st.users)

-- `pop_front` while there are too many
unfoldable pub trim_history : List HistEntry → List HistEntry
trim_history [] = []
trim_history (h ∷ hs) =
    let rest = trim_history hs in if ltb history_cap (length (h ∷ hs)) then rest else h ∷ hs

unfoldable pub record_rename : Text → Text → ℕ → ℕ → ServerState → ServerState
record_rename old_key new_key cx_id now st =
    let entry : HistEntry = record {
      old_key = old_key;
      new_key = new_key;
      cx_id = cx_id;
      at = now;
    } in
    if old_key == new_key
    then st
    else record st { history = trim_history (st.history ++ entry ∷ []) }

-- the table of users behind a rename from one key to another
abbrev pub move_user : Text → Text → ServerState → ServerState
move_user old_key display st = elim (lookup old_key st.users) [
  | none ↦ st
  | some cx ↦ record st {
    users =
        insert (norm_nick display) (record cx { nick = display; nick_key = norm_nick display })
          (remove old_key st.users);
  }
]

unfoldable pub apply_rename : ℕ → Text → ℕ → ServerState → ServerState
apply_rename id display now st = elim (find_by_id id st) [
  | none ↦ st
  | some u ↦
      if u.nick_key == norm_nick display
      then st
      else move_user u.nick_key display (record_rename u.nick_key (norm_nick display) id now st)
]

unfoldable pub chan : Text → ServerState → Option Chn
chan key st = lookup (norm_nick key) st.chans

-- `chan_mut`, changed
unfoldable pub change_chan : Text → (Chn → Chn) → ServerState → ServerState
change_chan key f st = elim (lookup (norm_nick key) st.chans) [
  | none ↦ st
  | some c ↦ record st { chans = insert (norm_nick key) (f c) st.chans }
]

unfoldable pub chan_or_create : Text → Text → ℕ → ServerState → ServerState
chan_or_create key display now st =
    if contains_key (norm_nick key) st.chans
    then st
    else record st { chans = insert (norm_nick key) (Channel.new display now) st.chans }

unfoldable pub evict : ℕ → ServerState → ServerState × Option Cx
evict id st = elim (lookup id st.unreg) [
  | some u ↦ (record st { unreg = remove id st.unreg }, some u)
  | none ↦ elim (find (has_id id) (values st.users)) [
    | none ↦ (st, none)
    | some u ↦ (record st { users = remove u.nick_key st.users }, lookup u.nick_key st.users)
  ]
]

abbrev pub holds : ℕ → Chn → Bool
holds id c = contains id c.members || contains id c.ops || contains id c.voices

abbrev pub without_user : ℕ → Chn → Chn
without_user id c = record c {
  members = set_remove id c.members;
  ops = set_remove id c.ops;
  voices = set_remove id c.voices;
}

unfoldable pub eject_user : ℕ → ServerState → ServerState × Bool
eject_user id st =
    (record st { chans = map_values (without_user id) st.chans }, any (holds id) (values st.chans))

abbrev pub no_ids : List ℕ → Bool
no_ids [] = true
no_ids (x ∷ xs) = false

abbrev pub no_texts : List Text → Bool
no_texts [] = true
no_texts (x ∷ xs) = false

-- no member here and none on another server
abbrev pub is_deserted : Network → Text → Chn → Bool
is_deserted net key c = no_ids c.members && no_texts (Net.members_of key net)

abbrev pub deserted_keys : Network → Map Text Chn → List Text
deserted_keys net [] = []
deserted_keys net ((k, c) ∷ m) =
    let rest = deserted_keys net m in if is_deserted net k c then k ∷ rest else rest

abbrev pub remove_keys : List Text → Map Text Chn → Map Text Chn
remove_keys [] m = m
remove_keys (k ∷ ks) m = remove_keys ks (remove k m)

unfoldable pub drop_empty_channels : ServerState → ServerState
drop_empty_channels st = record st {
  chans = remove_keys (deserted_keys st.network st.chans) st.chans;
}
