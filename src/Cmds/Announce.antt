-- ===== src/Cmds/Announce.antt =====
-- src/cmds.rs: what a JOIN tells to the joiner, to the members and to the links.
use chonkline.Base.{
  ℕ, Bool, true, false, not, ◌&&◌, ◌||◌, Option, none, some, List, [], ◌∷◌, ◌++◌, length, all,
  nat_beq, ltb, leb, in_range, if◌then◌else◌, Text, text_eq, codes, lookup,
}
use chonkline.Str.{byte_len}
use chonkline.Str.Split.{join}
use chonkline.Str.Decimal.{to_decimal}
use chonkline.Proto.{line}
use chonkline.Network.{RemoteUser, uuid_for_local, next_membid, members_of}
use chonkline.Link.Render.{fjoin_line_with_params}
use chonkline.State.Casemap.{norm_nick}
use chonkline.State.Client.{Cx, text_insert}
use chonkline.State.Channel.{Chn, is_op, marker, all_markers, burst_mode_parts}
use chonkline.State.Server.{ServerState, find_by_id, chan}
use chonkline.Cmds.{World, numeric, relay_tagged, to_links, prefix_of, text_or}

abbrev pub max_channels : ℕ
max_channels = 10

abbrev is_graphic : ℕ → Bool
is_graphic c = in_range 33 126 c && not (nat_beq c b',')

unfoldable pub valid_channel : Text → Bool
valid_channel [] = false
valid_channel (c ∷ s) =
    (nat_beq c b'#' || nat_beq c b'&') && in_range 2 50 (byte_len (c ∷ s)) && all is_graphic s

abbrev pub on_state : (ServerState → ServerState) → World → World
on_state f w = record w { st = f w.st }

abbrev pub note_channel : Text → Cx → Cx
note_channel key u = record u { chans = text_insert key u.chans }

abbrev pub channels_of : Option Cx → ℕ
channels_of none = 0
channels_of (some u) = length u.chans

abbrev pub members_at : Text → ServerState → List ℕ
members_at key st = elim (chan key st) [ none ↦ [] | some c ↦ c.members ]

abbrev pub has_any : List Text → Bool
has_any [] = false
has_any (x ∷ xs) = true

abbrev op_letter : ℕ → Chn → Text
op_letter id c = if is_op id c then b'o' ∷ [] else []

-- the line that introduces a channel whose members no peer knows
abbrev fjoin_of : Text → Text → Text → ℕ → Option Chn → Text
fjoin_of sid display uuid id none =
    fjoin_line_with_params sid display 0 (b'+' ∷ []) [] (([], uuid) ∷ [])
fjoin_of sid display uuid id (some c) =
    let modes = burst_mode_parts c in
    fjoin_line_with_params sid display c.created_at modes.0 modes.1 ((op_letter id c, uuid) ∷ [])

unfoldable pub relay_join_to_links : ℕ → Text → Text → World → World
unfolding to_links
relay_join_to_links id key display w =
    let named = uuid_for_local id w.st.network in
    let numbered = next_membid named.0 in
    let ijoin = b':' ∷ named.1 ++ (codes " IJOIN " ++ (display ++ b' ' ∷ to_decimal numbered.1)) in
    let fjoin = fjoin_of w.st.network.sid display named.1 id (chan key w.st) in
    if not w.linked
    then w
    else if has_any (members_of key named.0)
    then to_links ijoin (on_state (λ st. record st { network = numbered.0 }) w)
    else to_links fjoin (on_state (λ st. record st { network = named.0 }) w)

abbrev account_or_star : Option Text → Text
account_or_star a = text_or (b'*' ∷ []) a

-- `JOIN` as a recipient has negotiated it: `extended` names the account and the real name
abbrev join_line : Bool → Text → Text → Option Cx → Text
join_line true from display none = line from (codes "JOIN") (display ++ codes " * :")
join_line true from display (some u) =
    line from (codes "JOIN")
      (display ++ b' ' ∷ account_or_star u.account ++ (codes " :" ++ u.realname))
join_line false from display u = line from (codes "JOIN") display

abbrev wants_extended : Option Cx → Bool
wants_extended none = false
wants_extended (some u) = u.caps.extended_join

unfoldable pub broadcast_join : ℕ → List ℕ → Text → Text → World → World
broadcast_join id [] from display w = w
broadcast_join id (mid ∷ mids) from display w =
    let ext = wants_extended (find_by_id mid w.st) in
    let told = relay_tagged mid (join_line ext from display (find_by_id id w.st)) w in
    let rest = broadcast_join id mids from display told in
    let same = broadcast_join id mids from display w in if nat_beq mid id then same else rest

-- `{}{}!{}@{}` or `{}{}`
unfoldable pub names_entry : Text → Cx → Bool → Text
names_entry mark u userhost =
    if userhost then mark ++ (u.nick ++ b'!' ∷ u.user ++ b'@' ∷ u.host) else mark ++ u.nick

unfoldable pub names_symbol : Chn → Text
names_symbol c = if c.secret then b'@' ∷ [] else if c.private then b'*' ∷ [] else b'=' ∷ []

abbrev names_from : ServerState → Bool → Bool → Chn → List ℕ → List Text
names_from st multi uhin c [] = []
names_from st multi uhin c (mid ∷ mids) =
    let rest = names_from st multi uhin c mids in
    elim (find_by_id mid st) [
      | none ↦ rest
      | some u ↦ names_entry (if multi then all_markers mid c else marker mid c) u uhin ∷ rest
    ]

abbrev remote_nicks : Option RemoteUser → List Text → List Text
remote_nicks none rest = rest
remote_nicks (some u) rest = u.nick ∷ rest

abbrev nicks_at : ServerState → List Text → List Text
nicks_at st [] = []
nicks_at st (uuid ∷ uuids) = remote_nicks (lookup uuid st.network.users) (nicks_at st uuids)

unfoldable pub remote_names : ServerState → Text → List Text
remote_names st key = nicks_at st (members_of key st.network)

unfoldable pub send_topic_state : ℕ → Text → World → World
send_topic_state id display w =
    let untold = numeric id (codes "331") (display ∷ codes "No topic is set" ∷ []) w in
    elim (chan (norm_nick display) w.st) [
      | none ↦ untold
      | some c ↦
          let told = numeric id (codes "332") (display ∷ (b':' ∷ c.topic) ∷ []) w in
          let dated =
            numeric id (codes "333") (display ∷ c.topic_setter ∷ to_decimal c.topic_time ∷ [])
              told in
          if leb (length c.topic) 0
          then untold
          else if ltb 0 (length c.topic_setter) && ltb 0 c.topic_time
          then dated
          else told
    ]

abbrev cap_of : (Cx → Bool) → Option Cx → Bool
cap_of f none = false
cap_of f (some u) = f u

unfoldable pub joiner_replies : ℕ → Text → World → World
unfolding send_topic_state remote_names
joiner_replies id display w0 =
    let me = find_by_id id w0.st in
    let w1 = relay_tagged id (join_line (wants_extended me) (prefix_of id w0.st) display me) w0 in
    let w2 = send_topic_state id display w1 in
    let multi = cap_of (λ u. u.caps.multi_prefix) me in
    let uhin = cap_of (λ u. u.caps.userhost_in_names) me in
    let key = norm_nick display in
    let here : List Text = elim (chan key w2.st) [
      | none ↦ []
      | some c ↦ names_from w2.st multi uhin c c.members
    ] in
    let sym : Text = elim (chan key w2.st) [ none ↦ b'=' ∷ [] | some c ↦ names_symbol c ] in
    let listing = join (b' ' ∷ []) (here ++ remote_names w2.st key) in
    let w3 = numeric id (codes "353") (sym ∷ display ∷ (b':' ∷ listing) ∷ []) w2 in
    numeric id (codes "366") (display ∷ codes "End of /NAMES list" ∷ []) w3
