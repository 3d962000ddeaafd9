-- ===== src/Link/Handlers.antt =====
-- src/link.rs: the commands of a peer, each as the handler of the source.
use chonkline.Base.{
  ℕ, Bool, true, false, not, ◌&&◌, ◌||◌, Option, none, some, List, [], ◌∷◌, ◌++◌, map, length,
  get_or, take, drop, find, ltb, if◌then◌else◌, Text, codes, ◌==◌, text_eq,
}
use chonkline.Str.{to_ascii_lowercase}
use chonkline.Str.Decimal.{parse_uint, u64_max}
use chonkline.Proto.{Command, is_empty}
use chonkline.Network.{RemoteUser, valid_sid, valid_uuid}
use chonkline.State.Casemap.{norm_nick}
use chonkline.Link.{
  bursting, dead, LinkSession, Event, peer_registered, server_introduced, user_introduced,
  nick_changed, channel_join, remote_join, message, mode_change, topic_changed, failed, send,
  send_server, parse_members, or_default,
}

-- `parse().unwrap_or(0)` as `u64`
abbrev pub number_or_zero : Text → ℕ
number_or_zero s = elim (parse_uint u64_max s) [ none ↦ 0 | some n ↦ n ]

-- `params.last()`
abbrev pub last_or_empty : List Text → Text
last_or_empty [] = []
last_or_empty (p ∷ []) = p
last_or_empty (p ∷ q ∷ ps) = last_or_empty (q ∷ ps)

abbrev pub is_some : Option Text → Bool
is_some none = false
is_some (some s) = true

-- `params.first()` is START, in any case
abbrev pub starts_capab : List Text → Bool
starts_capab [] = false
starts_capab (p ∷ ps) = map to_ascii_lowercase p == codes "start"

unfoldable pub on_capab : Command → LinkSession → LinkSession × List Event
on_capab cmd s = (
  if starts_capab cmd.params && not s.outbound_link && not s.sent_server then send_server s else s,
  [],
)

abbrev pub valid_or_empty : Text → Text
valid_or_empty s = if valid_sid s then s else []

-- the SID in the handshake form: the parameter 3, or else 2, where it is one
unfoldable pub handshake_sid : List Text → Text
handshake_sid ps =
    if valid_sid (get_or ps 3 []) then get_or ps 3 [] else valid_or_empty (get_or ps 2 [])

-- a prefixed SERVER from a peer that has registered
unfoldable pub introduce : Command → Text → LinkSession → LinkSession × List Event
introduce cmd source s =
    let sid = or_default (find valid_sid (drop 1 cmd.params)) in
    if is_empty sid
    then (s, [])
    else (s, server_introduced sid (get_or cmd.params 0 []) (last_or_empty cmd.params) source ∷ [])

-- the SID of the handshake form is checked: what is shown in the failure is empty whenever it is
unfoldable pub register_sid : Command → LinkSession → LinkSession × List Event
register_sid cmd s =
    let sid = handshake_sid cmd.params in
    let name = get_or cmd.params 0 [] in
    let peer = record s { peer_sid = some sid; peer_name = some name; phase = bursting } in
    if valid_sid sid
    then (
      if not s.outbound_link then send_server peer else peer,
      peer_registered sid name (last_or_empty cmd.params) ∷ [],
    )
    else (
      send (codes "ERROR :Invalid SID") (record s { phase = dead }),
      failed (codes "invalid SID \"" ++ (sid ++ codes "\"")) ∷ [],
    )

abbrev pub refuse_password : LinkSession → LinkSession × List Event
refuse_password s = (
  send (codes "ERROR :Link password mismatch") (record s { phase = dead }),
  failed (codes "link password mismatch") ∷ [],
)

-- SERVER in the handshake form
unfoldable pub register_peer : Command → LinkSession → LinkSession × List Event
register_peer cmd s =
    if get_or cmd.params 1 [] == s.cfg.recv_password then register_sid cmd s else refuse_password s

unfoldable pub on_server : Command → Text → LinkSession → LinkSession × List Event
on_server cmd source s =
    if not (is_empty source) && is_some s.peer_sid
    then introduce cmd source s
    else register_peer cmd s

unfoldable pub on_uid : Command → Text → LinkSession → LinkSession × List Event
on_uid cmd source s =
    let ps = cmd.params in
    let uuid = get_or ps 0 [] in
    let nick = get_or ps 2 [] in
    let user : RemoteUser = record {
      sid = if is_empty source then take 3 uuid else source;
      nick_key = norm_nick nick;
      nick = nick;
      uuid = uuid;
      ts = number_or_zero (get_or ps 1 []);
      real_host = get_or ps 3 [];
      host = get_or ps 4 [];
      user = get_or ps 5 [];
      modes = get_or ps 8 [];
      realname = last_or_empty ps;
      chans = [];
      away = none;
      oper = false;
    } in
    if ltb (length ps) 10 || not (valid_uuid uuid) then (s, []) else (s, user_introduced user ∷ [])

unfoldable pub on_nick : Command → Text → LinkSession → LinkSession × List Event
on_nick cmd source s =
    if ltb (length cmd.params) 1 || is_empty source
    then (s, [])
    else (s, nick_changed source (get_or cmd.params 0 []) ∷ [])

unfoldable pub on_fjoin : Command → LinkSession → LinkSession × List Event
on_fjoin cmd s =
    let ps = cmd.params in
    if ltb (length ps) 4 then (s, []) else (
      s,
      channel_join (get_or ps 0 []) (number_or_zero (get_or ps 1 [])) (get_or ps 2 [])
            (parse_members (last_or_empty ps))
          ∷ [],
    )

unfoldable pub on_ijoin : Command → Text → LinkSession → LinkSession × List Event
on_ijoin cmd source s =
    if ltb (length cmd.params) 1 || is_empty source
    then (s, [])
    else (s, remote_join (get_or cmd.params 0 []) source ∷ [])

unfoldable pub on_message : Command → Text → LinkSession → LinkSession × List Event
on_message cmd source s =
    let ps = cmd.params in
    if ltb (length ps) 2 || is_empty source
    then (s, [])
    else (s, message source (get_or ps 0 []) (get_or ps 1 []) (cmd.name == codes "NOTICE") ∷ [])

unfoldable pub on_fmode : Command → LinkSession → LinkSession × List Event
on_fmode cmd s =
    let ps = cmd.params in
    if ltb (length ps) 3
    then (s, [])
    else (s, mode_change (get_or ps 0 []) (number_or_zero (get_or ps 1 [])) (drop 2 ps) ∷ [])

unfoldable pub on_ftopic : Command → Text → LinkSession → LinkSession × List Event
on_ftopic cmd source s =
    let ps = cmd.params in
    let setter = if ltb 4 (length ps) then get_or ps 3 [] else source in
    if ltb (length ps) 4 then (s, []) else (
      s,
      topic_changed (get_or ps 0 []) (number_or_zero (get_or ps 2 [])) setter (last_or_empty ps)
          ∷ [],
    )

abbrev pub pong_line : Text → Text → Text
pong_line to sender = b':' ∷ to ++ (codes " PONG " ++ (to ++ b' ' ∷ sender))

unfoldable pub on_ping : Command → Text → LinkSession → LinkSession × List Event
on_ping cmd source s =
    (send (pong_line (get_or cmd.params 1 s.cfg.sid) (get_or cmd.params 0 source)) s, [])
