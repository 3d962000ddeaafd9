-- ===== src/Link.antt =====
-- src/link.rs: one link to another server, as a state machine. `handle_line` takes an inbound line
-- and gives events for the caller to apply; the lines for the peer are queued in `out`.
pub mod Handlers
pub mod Dispatch
pub mod Render
pub mod Induction
pub mod Members
pub mod Security
pub mod Lifecycle
mod Examples
use chonkline.Base.{
  ℕ, ◌+◌, Bool, true, false, not, ◌&&◌, ◌||◌, Option, none, some, List, [], ◌∷◌, ◌++◌, map, length,
  get_or, get_elem?, take, drop, retain, find, ltb, nat_beq, if◌then◌else◌, Text, codes, ◌==◌,
  text_eq, Map, lookup,
}
use chonkline.Str.{to_ascii_lowercase, strip_prefix}
use chonkline.Str.Split.{split, join}
use chonkline.Str.Decimal.{to_decimal, parse_uint, u64_max}
use chonkline.Proto.{Command, parse, split_once, is_empty}
use chonkline.Network.{RemoteUser, valid_sid, valid_uuid}
use chonkline.State.Casemap.{norm_nick}

pub data Phase : Type 0 where
  capab : Phase
  bursting : Phase
  linked : Phase
  dead : Phase

pub record LinkConfig : Type 0 where
  pub sid : Text
  pub name : Text
  pub desc : Text
  pub send_password : Text
  pub recv_password : Text

pub data Event : Type 0 where
  peer_registered : (sid name desc : Text) → Event
  server_introduced : (sid name desc via : Text) → Event
  user_introduced : RemoteUser → Event
  user_quit : (uuid reason : Text) → Event
  nick_changed : (uuid nick : Text) → Event
  channel_join : (chan : Text) (ts : ℕ) (modes : Text) (members : List (Text × Text)) → Event
  remote_join : (chan uuid : Text) → Event
  remote_part : (chan uuid reason : Text) → Event
  message : (sender target text : Text) (notice : Bool) → Event
  mode_change : (target : Text) (ts : ℕ) (modes : List Text) → Event
  topic_changed : (chan : Text) (ts : ℕ) (setter topic : Text) → Event
  away : (uuid : Text) (reason : Option Text) → Event
  burst_complete : Event
  server_split : (sid reason : Text) → Event
  failed : (reason : Text) → Event

pub record LinkSession : Type 0 where
  pub cfg : LinkConfig
  pub phase : Phase
  pub peer_sid : Option Text
  pub peer_name : Option Text
  pub outbound_link : Bool
  pub sent_server : Bool
  pub sent_burst : Bool
  pub out : List Text

abbrev pub new : LinkConfig → Bool → LinkSession
new cfg outbound_link = record {
  cfg = cfg;
  phase = capab;
  peer_sid = none;
  peer_name = none;
  outbound_link = outbound_link;
  sent_server = false;
  sent_burst = false;
  out = [];
}

abbrev pub send : Text → LinkSession → LinkSession
send line s = record s { out = s.out ++ line ∷ [] }

unfoldable pub take_outbound : LinkSession → LinkSession × List Text
take_outbound s = (record s { out = [] }, s.out)

abbrev pub proto_version : Text
proto_version = codes "1205"

abbrev pub capabilities : Text
capabilities =
    codes "CAPAB CAPABILITIES :NICKMAX=30 CHANMAX=50 MAXMODES=20 IDENTMAX=10 "
    ++ codes "MAXQUIT=255 MAXTOPIC=390 MAXKICK=255 MAXREAL=128 MAXAWAY=200 MAXHOST=64 MAXLINE=512"

unfoldable pub send_capab : LinkSession → LinkSession
send_capab s =
    send (codes "CAPAB END") (send capabilities (send (codes "CAPAB START " ++ proto_version) s))

unfoldable pub server_line : LinkConfig → Text
server_line cfg =
    codes "SERVER "
    ++ (cfg.name
        ++ b' ' ∷ (cfg.send_password ++ (codes " 0 " ++ (cfg.sid ++ (codes " :" ++ cfg.desc)))))

unfoldable pub send_server : LinkSession → LinkSession
send_server s =
    if s.sent_server then s else send (server_line s.cfg) (record s { sent_server = true })

unfoldable pub begin : LinkSession → LinkSession
begin s = if s.outbound_link then send_server (send_capab s) else send_capab s

abbrev pub send_all : List Text → LinkSession → LinkSession
send_all [] s = s
send_all (line ∷ rest) s = send_all rest (send line s)

abbrev pub version : Text
version = codes "chonkline-beta"

unfoldable pub send_burst : ℕ → List Text → List Text → LinkSession → LinkSession
send_burst now users channels s =
    if s.sent_burst
    then s
    else (let sid = s.cfg.sid in
        let s1 =
          send (b':' ∷ sid ++ (codes " BURST " ++ to_decimal now))
            (record s { sent_burst = true }) in
        let s2 =
          send
            (b':' ∷ sid
              ++ (codes " SINFO version :" ++ (version ++ b' ' ∷ (s.cfg.name ++ codes " :"))))
            s1 in
        send (b':' ∷ sid ++ codes " ENDBURST") (send_all channels (send_all users s2)))

-- `split(' ')` without the empty entries; of each, `prefixes,uuid[:membid]`
abbrev pub keep_valid : Text → Text → List (Text × Text) → List (Text × Text)
keep_valid prefixes uuid rest = if valid_uuid uuid then (prefixes, uuid) ∷ rest else rest

abbrev pub add_member : Option (Text × Text) → List (Text × Text) → List (Text × Text)
add_member none rest = rest
add_member (some (prefixes, tail)) rest = keep_valid prefixes (get_or (split b':' tail) 0 tail) rest

abbrev pub members_in : List Text → List (Text × Text)
members_in [] = []
members_in (entry ∷ entries) = add_member (split_once b',' entry) (members_in entries)

unfoldable pub parse_members : Text → List (Text × Text)
parse_members list = members_in (retain (λ e. not (is_empty e)) (split b' ' list))

abbrev pub or_default : Option Text → Text
or_default none = []
or_default (some s) = s
