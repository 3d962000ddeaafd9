-- ===== src/Cmds/Examples.antt =====
-- src/cmds.rs: the handlers on a server with an operator, another member and one channel.
use chonkline.Base.{
  ℕ, ◌≡◌, ◌↔◌, refl, ap, get_or, true, false, ◌||◌, none, some, List, [], ◌∷◌, Text, codes, lookup,
  text_eq, text_beq, nat_eq, arith, contains,
}
use chonkline.Base.Keys.{IsDistinct}
use chonkline.State.Casemap.{norm_nick, norm_char, fold_bracket}
use chonkline.Str.{to_ascii_lowercase}
use chonkline.State.Client.{Cx, no_caps}
use chonkline.State.Channel as Channel
use chonkline.State.Channel.{Chn, set_key_opt}
use chonkline.State.Server as Server
use chonkline.State.Server.{ServerState, find_by_id, chan, drop_empty_channels}
use chonkline.State.Server.Deserted.{IsVacant, drop_empty_channels-IsVacant}
use chonkline.Cmds.{World}
use chonkline.Cmds.Join.{handle_join, join_existing, verdict, wrong_key}
use chonkline.Cmds.Leave.{handle_part, handle_kick}
use chonkline.Cmds.Mirror.{IsMirrored, lists, seats}
use chonkline.Cmds.Membership.{IsFine}
use chonkline.Cmds.Joining.{handle_join-IsFine}
use chonkline.Cmds.Leaving.{handle_part-IsFine, handle_kick-IsFine}
use chonkline.Cmds.Admission.{join_existing-seats, IsAllowed, is_admitted, set_key_opt-wrong_key}
use chonkline.Cmds.Kicks.{handle_kick-Unmoved}

abbrev person : ℕ → Text → List Text → Cx
person id nick chans = record {
  id = id;
  nick = nick;
  nick_key = nick;
  user = nick;
  host = codes "host";
  real_host = codes "host";
  realname = nick;
  registered = true;
  account = none;
  caps = no_caps;
  sasl_mech = none;
  cert_fp = none;
  pending_nick = none;
  pending_user = none;
  cap_negotiating = false;
  cap_gated_welcome = false;
  batch_seq = 0;
  reg_challenged = false;
  reg_verified = false;
  away = none;
  invis = false;
  wallop = false;
  srvnotice = false;
  oper = false;
  bot = false;
  chans = chans;
}

abbrev room : Text
room = codes "#a"

abbrev alice : Cx
alice = person 1 (codes "alice") (room ∷ [])

abbrev bob : Cx
bob = person 2 (codes "bob") (room ∷ [])

abbrev carol : Cx
carol = person 3 (codes "carol") []

abbrev room_chan : Chn
room_chan = record (Channel.new room 0) {
  members = 1 ∷ 2 ∷ [];
  ops = 1 ∷ [];
  invite_only = true;
  invites = 3 ∷ [];
}

abbrev server : ServerState
server = record (Server.new (codes "srv") (codes "1AA")) {
  users = (codes "alice", alice) ∷ (codes "bob", bob) ∷ (codes "carol", carol) ∷ [];
  chans = (room, room_chan) ∷ [];
}

abbrev world : World
world = record {
  st = server;
  chanreg = record { path = none; map = [] };
  linked = true;
  reply_for = some 3;
  bypass_reply_capture = false;
  reply_buf = [];
  sent = [];
  to_peers = [];
  now = 5;
  stamp = codes "t";
}

one_room : IsDistinct server.chans
unfolding lookup
one_room = (refl, tt)

server-IsMirrored : IsMirrored server
unfolding find_by_id lookup
server-IsMirrored = record { mirrored = both; distinct = one_room }
  where
    both :
        (id : ℕ) (key : Text)
        → lists key (find_by_id id server) ≡ seats id (lookup key server.chans)
    both id key = ground arith

carol-IsFine : IsFine 3 world
unfolding find_by_id lookup
carol-IsFine = record { good = record { there = (carol, refl); mirror = server-IsMirrored } }

alice-IsFine : IsFine 1 world
unfolding find_by_id lookup
alice-IsFine = record { good = record { there = (alice, refl); mirror = server-IsMirrored } }

handle_join-IsFine_example : IsFine 3 (handle_join 3 (codes "#a,#b" ∷ []) world)
handle_join-IsFine_example = handle_join-IsFine 3 (codes "#a,#b" ∷ []) world carol-IsFine

handle_part-IsFine_example : IsFine 1 (handle_part 1 (room ∷ codes "bye" ∷ []) world)
handle_part-IsFine_example = handle_part-IsFine 1 (room ∷ codes "bye" ∷ []) world alice-IsFine

handle_kick-IsFine_example : IsFine 1 (handle_kick 1 (room ∷ codes "bob" ∷ []) world)
handle_kick-IsFine_example = handle_kick-IsFine 1 (room ∷ codes "bob" ∷ []) world alice-IsFine

handle_kick-Unmoved_example :
    seats 1 (lookup room (handle_kick 2 (room ∷ codes "alice" ∷ []) world).st.chans)
    ≡ seats 1 (lookup room world.st.chans)
unfolding lookup Channel.is_op text_beq
handle_kick-Unmoved_example =
    handle_kick-Unmoved 2 (room ∷ codes "alice" ∷ []) 1 room world one_room refl refl

join_existing-seats_example :
    (seats 3 (lookup room (join_existing 3 room [] world).st.chans) ≡ (
      is_admitted (verdict 3 [] (find_by_id 3 server) room_chan) || contains 3 room_chan.members))
    × ((is_admitted (verdict 3 [] (find_by_id 3 server) room_chan) ≡ true)
        ↔ IsAllowed 3 [] (find_by_id 3 server) room_chan)
unfolding chan norm_nick norm_char fold_bracket lookup to_ascii_lowercase text_beq
join_existing-seats_example = join_existing-seats 3 room [] room_chan world refl refl

set_key_opt-wrong_key_example :
    wrong_key (set_key_opt (some (codes "Key")) room_chan).chan_key (codes "Key") ≡ true
unfolding norm_nick norm_char fold_bracket to_ascii_lowercase
set_key_opt-wrong_key_example =
    set_key_opt-wrong_key (codes "Key") (codes "Key") room_chan (λ e. cc)
      (λ e. let bad : 107 ≡ 75 = ap (λ (xs : Text). get_or xs 0 0) e in absurd (omega (arith, bad)))

drop_empty_channels-IsVacant_example :
    let after = lookup room (drop_empty_channels server).chans in
    ((c : Chn)
      → lookup room server.chans ≡ some c
      → (IsVacant server.network room c → after ≡ none)
        × (¬ IsVacant server.network room c → after ≡ some c))
    × (lookup room server.chans ≡ none → after ≡ none)
drop_empty_channels-IsVacant_example = drop_empty_channels-IsVacant room server one_room
