-- ===== src/Cmds/Leave.antt =====
-- src/cmds.rs: PART, KICK and QUIT.
use chonkline.Base.{
  ℕ, Bool, true, false, not, ◌&&◌, ◌||◌, Option, none, some, List, [], ◌∷◌, ◌++◌, nat_beq,
  if◌then◌else◌, Text, text_eq, codes, get_elem?, lookup, contains, nat_eq,
}
use chonkline.Proto.{line}
use chonkline.State.Casemap.{norm_nick}
use chonkline.State.Client.{Cx, prefix, text_remove}
use chonkline.State.Channel.{Chn, is_member, is_op}
use chonkline.State.Channel.Edits.{eject}
use chonkline.State.Server.{
  ServerState, find_by_id, change_by_id, lookup_nick, chan, change_chan, eject_user,
  drop_empty_channels, evict,
}
use chonkline.Cmds.{
  World, relay_tagged, relay_all, deliver, to_links, deliver_need_more_params,
  deliver_nosuch_channel, deliver_not_on_channel, deliver_chanop_privs_needed,
  deliver_user_not_in_channel, prefix_of, listed, text_or,
}
use chonkline.Cmds.Announce.{on_state, members_at}

abbrev pub forget_channel : Text → Cx → Cx
forget_channel key u = record u { chans = text_remove key u.chans }

-- out of the channel's tables, and the channel out of the user's
abbrev pub ejected : ℕ → Chn → Chn
ejected id c = (eject id c).0

abbrev pub member_of : ℕ → Option Chn → Bool
member_of id none = false
member_of id (some c) = is_member id c

abbrev pub op_of : ℕ → Option Chn → Bool
op_of id none = false
op_of id (some c) = is_op id c

abbrev pub exists_chan : Option Chn → Bool
exists_chan none = false
exists_chan (some c) = true

-- the text where there is one that is not empty, and otherwise the default
abbrev pub given_or : Text → Option Text → Text
given_or default none = default
given_or default (some []) = default
given_or default (some (c ∷ s)) = c ∷ s

abbrev pub part_tail : Text → Option Text → Text
part_tail raw none = raw
part_tail raw (some []) = raw
part_tail raw (some (c ∷ s)) = raw ++ (codes " :" ++ c ∷ s)

abbrev pub to_links_as : ℕ → (Text → Text) → World → World
to_links_as id make w = elim (lookup id w.st.network.local_uuids) [
  | none ↦ w
  | some uuid ↦ to_links (make uuid) w
]

abbrev pub part_to_links : ℕ → Text → Option Text → World → World
part_to_links id norm reason w =
    to_links_as id
      (λ uuid. b':' ∷ uuid ++ (codes " PART " ++ (norm ++ (codes " :" ++ text_or [] reason)))) w

abbrev pub depart : ℕ → Text → ServerState → ServerState
depart id norm st = change_chan norm (ejected id) (change_by_id id (forget_channel norm) st)

unfoldable pub part_one : ℕ → Text → Option Text → World → World
part_one id raw reason w =
    let norm = norm_nick raw in
    let c = chan norm w.st in
    let told = line (prefix_of id w.st) (codes "PART") (part_tail raw reason) in
    let gone = on_state (depart id norm) (part_to_links id norm reason w) in
    let w' = relay_tagged id told gone in
    if not (exists_chan c)
    then deliver_nosuch_channel id raw w
    else if not (member_of id c)
    then deliver_not_on_channel id raw w
    else relay_all (members_at norm w'.st) told w'

unfoldable pub part_each : ℕ → Option Text → List Text → World → World
unfolding part_one
part_each id reason [] w = w
part_each id reason (raw ∷ rest) w = part_each id reason rest (part_one id raw reason w)

unfoldable pub handle_part : ℕ → List Text → World → World
unfolding part_each
handle_part id [] w = deliver_need_more_params id (codes "PART") w
handle_part id (list ∷ more) w =
    on_state drop_empty_channels (part_each id (get_elem? more 0) (listed list) w)

abbrev pub target_of : Text → World → ℕ × Text
target_of param w = elim (lookup_nick (norm_nick param) w.now w.st) [
  | none ↦ (0, [])
  | some u ↦ (u.id, u.nick)
]

-- the KICK of somebody by somebody who may
abbrev pub kicked : ℕ → Text → ℕ → Text → Option Text → World → World
kicked id raw target nick comment w =
    let norm = norm_nick raw in
    let members = members_at norm w.st in
    let st' = change_by_id target (forget_channel norm) (change_chan norm (ejected target) w.st) in
    let told =
      line (prefix_of id st') (codes "KICK")
        (raw ++ b' ' ∷ nick ++ (codes " :" ++ given_or nick comment)) in
    on_state drop_empty_channels (relay_all members told (record w { st = st' }))

unfoldable pub kick_target : ℕ → Text → Text → Option Text → World → World
kick_target id raw param comment w =
    let c = chan (norm_nick raw) w.st in
    let target = target_of param w in
    if nat_beq target.0 0 || not (member_of target.0 c)
    then deliver_user_not_in_channel id param raw w
    else if not (nat_beq target.0 id) && not (op_of id c)
    then deliver_chanop_privs_needed id raw w
    else kicked id raw target.0 target.1 comment w

abbrev pub kick_from : ℕ → Text → List Text → World → World
kick_from id raw [] w = deliver_need_more_params id (codes "KICK") w
kick_from id raw (param ∷ more) w = kick_target id raw param (get_elem? more 0) w

unfoldable pub handle_kick : ℕ → List Text → World → World
unfolding kick_target
handle_kick id [] w = deliver_need_more_params id (codes "KICK") w
handle_kick id (raw ∷ more) w =
    let c = chan (norm_nick raw) w.st in
    if not (exists_chan c)
    then deliver_nosuch_channel id raw w
    else if not (member_of id c)
    then deliver_not_on_channel id raw w
    else kick_from id raw more w

-- the members of one channel who were not seen yet
abbrev pub unseen : ℕ → List ℕ → List ℕ → List ℕ
unseen id seen [] = seen
unseen id seen (m ∷ ms) =
    let more = unseen id (seen ++ m ∷ []) ms in
    let rest = unseen id seen ms in if nat_beq m id || contains m seen then rest else more

abbrev pub peers_in : ℕ → List ℕ → List Text → ServerState → List ℕ
peers_in id seen [] st = seen
peers_in id seen (key ∷ keys) st = peers_in id (unseen id seen (members_at key st)) keys st

-- `channel_peers` of src/state.rs
unfoldable pub channel_peers : ℕ → ServerState → List ℕ
channel_peers id st = elim (find_by_id id st) [ none ↦ [] | some u ↦ peers_in id [] u.chans st ]

abbrev deliver_all : List ℕ → Text → World → World
deliver_all [] text w = w
deliver_all (id ∷ ids) text w = deliver_all ids text (deliver id text w)

abbrev pub leave_all : ℕ → ServerState → ServerState
leave_all id st = (evict id (drop_empty_channels (eject_user id st).0)).0

unfoldable pub handle_quit : ℕ → List Text → World → World
handle_quit id args w = elim (find_by_id id w.st) [
  | none ↦ w
  | some cx ↦
      let reason = given_or cx.nick (get_elem? args 0) in
      let quit = line (prefix cx) (codes "QUIT") (b':' ∷ reason) in
      let w1 = to_links_as id (λ uuid. b':' ∷ uuid ++ (codes " QUIT :" ++ reason)) w in
      let w2 = deliver_all (channel_peers id w1.st) quit w1 in
      if cx.registered then on_state (leave_all id) w2 else w
]
