-- ===== src/Cmds.antt =====
-- src/cmds.rs: what the command handlers share. A handler works on the state, the registered channels and
-- the reply buffer, and adds to two logs: what it offers to a connection's queue, and what it offers to
-- every link. Whether a bounded queue then takes a line is not part of the model. `now` is the clock in
-- seconds, and `stamp` its IRCv3 form.
pub mod Announce
pub mod Join
pub mod Leave
pub mod Lookups
pub mod Mirror
pub mod Frames
pub mod Membership
pub mod Joining
pub mod Leaving
pub mod Admission
pub mod Kicks
mod Examples
use chonkline.Base.{
  ℕ, zero, suc, ◌+◌, Bool, true, false, not, ◌&&◌, ◌||◌, Option, none, some, List, [], ◌∷◌, ◌++◌,
  map, find, nat_beq, ltb, leb, ◌==◌, if◌then◌else◌, Text, text_eq, nat_eq, codes, contains, Map,
  lookup, insert, remove, get_elem?, retain,
}
use chonkline.Base.Keys.{values}
use chonkline.Str.{is_whitespace, strip_prefix}
use chonkline.Str.Split.{join, split}
use chonkline.Str.Decimal.{to_decimal}
use chonkline.Proto
use chonkline.Proto.{line, escape_tag_value, split_once}
use chonkline.State.Casemap.{norm_nick}
use chonkline.State.Client.{Cx, prefix}
use chonkline.State.Server.{ServerState, find_by_id, lookup_nick}
use chonkline.Channels.{ChannelRegistry}

pub record World : Type 0 where
  pub st : ServerState
  pub chanreg : ChannelRegistry
  pub linked : Bool
  pub reply_for : Option ℕ
  pub bypass_reply_capture : Bool
  pub reply_buf : List Text
  pub sent : List (ℕ × Text)
  pub to_peers : List Text
  pub now : ℕ
  pub stamp : Text

abbrev pub server_prefix : ServerState → Text
server_prefix st = b':' ∷ st.name

abbrev pub is_id : ℕ → Option ℕ → Bool
is_id id none = false
is_id id (some other) = nat_beq other id

unfoldable pub deliver : ℕ → Text → World → World
deliver id line w = elim (find_by_id id w.st) [
  | none ↦
      if is_id id w.reply_for && not w.bypass_reply_capture
      then record w { reply_buf = w.reply_buf ++ line ∷ [] }
      else w
  | some u ↦
      if is_id id w.reply_for && not w.bypass_reply_capture
      then record w { reply_buf = w.reply_buf ++ line ∷ [] }
      else record w { sent = w.sent ++ (id, line) ∷ [] }
]

abbrev pub name_or_star : Text → Text
name_or_star [] = b'*' ∷ []
name_or_star (c ∷ s) = c ∷ s

unfoldable pub sender_nick : ServerState → ℕ → Text
sender_nick st id = elim (find_by_id id st) [ none ↦ b'*' ∷ [] | some u ↦ name_or_star u.nick ]

unfoldable pub numeric : ℕ → Text → List Text → World → World
numeric id code args w =
    deliver id (Proto.params (server_prefix w.st) code (sender_nick w.st id ∷ args)) w

-- the words between whitespace, in front of `word` as far as it is read
abbrev pub push_word : Text → List Text → List Text
push_word [] words = words
push_word (c ∷ s) words = (c ∷ s) ∷ words

unfoldable pub words_from : Text → Text → List Text
words_from word [] = push_word word []
words_from word (c ∷ s) =
    let ended = words_from [] s in
    let longer = words_from (word ++ c ∷ []) s in
    if is_whitespace c then push_word word ended else longer

unfoldable pub split_whitespace : Text → List Text
unfolding words_from
split_whitespace s = words_from [] s

abbrev pub text_or : Text → Option Text → Text
text_or default none = default
text_or default (some s) = s

abbrev pub from_address : Text → Text → Cx → Bool
from_address user host u = u.user == user && u.host == host

abbrev pub id_of : Option Cx → Option ℕ
id_of none = none
id_of (some u) = some u.id

unfoldable pub sender_id_from_line : ServerState → ℕ → Text → Option ℕ
unfolding split_whitespace
sender_id_from_line st now base_line = elim (strip_prefix (b':' ∷ []) base_line) [
  | none ↦ none
  | some rest ↦ elim (split_once b'!' rest) [
    | none ↦ none
    | some nick_rest ↦ elim (split_once b'@' nick_rest.1) [
      | none ↦ none
      | some user_host ↦
          let host = text_or [] (get_elem? (split_whitespace user_host.1) 0) in
          let verb = text_or [] (get_elem? (split_whitespace base_line) 1) in
          elim (lookup_nick (norm_nick nick_rest.0) now st) [
            | some u ↦ some u.id
            | none ↦
                if verb == codes "NICK"
                then id_of (find (from_address user_host.0 host) (values st.users))
                else none
          ]
    ]
  ]
]

-- the account of a line's sender: `none` where no user sent it
abbrev pub account_tag : Option (Option Text) → List Text
account_tag none = []
account_tag (some none) = codes "account=*" ∷ []
account_tag (some (some name)) = (codes "account=" ++ escape_tag_value name) ∷ []

abbrev pub tag_if : Bool → List Text → List Text
tag_if true tags = tags
tag_if false tags = []

abbrev pub bot_of : Option Cx → Bool
bot_of none = false
bot_of (some u) = u.bot

abbrev pub account_of : Option Cx → Option (Option Text)
account_of none = none
account_of (some u) = some u.account

abbrev pub sender_of : ServerState → Option ℕ → Option Cx
sender_of st none = none
sender_of st (some id) = find_by_id id st

abbrev pub tags_for : Option Cx → Option Cx → Text → List Text
tags_for none sender stamp = []
tags_for (some u) sender stamp =
    tag_if u.caps.server_time ((codes "time=" ++ stamp) ∷ [])
    ++ (tag_if (u.caps.message_tags && bot_of sender) (codes "bot" ∷ [])
        ++ tag_if (u.caps.message_tags && u.caps.account_tag) (account_tag (account_of sender)))

abbrev pub tagged : List Text → Text → Text
tagged [] base = base
tagged (t ∷ tags) base = b'@' ∷ join (b';' ∷ []) (t ∷ tags) ++ b' ' ∷ base

unfoldable pub relay_tagged : ℕ → Text → World → World
unfolding deliver sender_id_from_line
relay_tagged id base w =
    let sender = sender_of w.st (sender_id_from_line w.st w.now base) in
    deliver id (tagged (tags_for (find_by_id id w.st) sender w.stamp) base) w

-- the line to each of them in turn
unfoldable pub relay_all : List ℕ → Text → World → World
unfolding relay_tagged
relay_all [] base w = w
relay_all (id ∷ ids) base w = relay_all ids base (relay_tagged id base w)

unfoldable pub to_links : Text → World → World
to_links line w = if w.linked then record w { to_peers = w.to_peers ++ line ∷ [] } else w

unfoldable pub deliver_need_more_params : ℕ → Text → World → World
deliver_need_more_params id command w =
    numeric id (codes "461") (command ∷ codes "Not enough parameters" ∷ []) w

unfoldable pub deliver_nosuch_channel : ℕ → Text → World → World
deliver_nosuch_channel id chan w = numeric id (codes "403") (chan ∷ codes "No such channel" ∷ []) w

unfoldable pub deliver_not_on_channel : ℕ → Text → World → World
deliver_not_on_channel id chan w =
    numeric id (codes "442") (chan ∷ codes "You're not on that channel" ∷ []) w

unfoldable pub deliver_chanop_privs_needed : ℕ → Text → World → World
deliver_chanop_privs_needed id chan w =
    numeric id (codes "482") (chan ∷ codes "You're not channel operator" ∷ []) w

unfoldable pub deliver_user_not_in_channel : ℕ → Text → Text → World → World
deliver_user_not_in_channel id nick chan w =
    numeric id (codes "441") (nick ∷ chan ∷ codes "They aren't on that channel" ∷ []) w

unfoldable pub deliver_too_many_channels : ℕ → Text → World → World
deliver_too_many_channels id chan w =
    numeric id (codes "405") (chan ∷ codes "You have joined too many channels" ∷ []) w

unfoldable pub deliver_join_denied : ℕ → ℕ → Text → World → World
deliver_join_denied id code display w =
    let suffix =
      if nat_beq code 473
      then codes "(+i)"
      else if nat_beq code 474
      then codes "(+b)"
      else codes "(+k)" in
    numeric id (to_decimal code) (display ∷ (codes "Cannot join channel " ++ suffix) ∷ []) w

abbrev pub prefix_of : ℕ → ServerState → Text
prefix_of id st = elim (find_by_id id st) [ none ↦ [] | some u ↦ prefix u ]

-- the pieces between commas that are not empty
abbrev pub nonempty_text : Text → Bool
nonempty_text [] = false
nonempty_text (c ∷ s) = true

abbrev pub listed : Text → List Text
listed s = retain nonempty_text (split b',' s)
