-- ===== src/Link/Dispatch.antt =====
-- src/link.rs: which handler a line goes to.
use chonkline.Base.{
  Bool, true, false, Option, none, some, List, [], ◌∷◌, get_or, get_elem?, if◌then◌else◌, Text,
  codes, text_eq, Map, lookup,
}
use chonkline.Str.{strip_prefix}
use chonkline.Proto.{Command, parse, split_once}
use chonkline.Link.{
  Phase, bursting, linked, dead, LinkSession, Event, user_quit, remote_part, away, burst_complete,
  server_split, failed, or_default,
}
use chonkline.Link.Handlers.{
  on_capab, on_server, on_uid, on_nick, on_fjoin, on_ijoin, on_message, on_fmode, on_ftopic,
  on_ping, is_some,
}

abbrev pub end_burst : Phase → Phase
end_burst bursting = linked
end_burst phase = phase

-- an empty reason is none
abbrev pub nonempty : Option Text → Option Text
nonempty none = none
nonempty (some []) = none
nonempty (some (c ∷ s)) = some (c ∷ s)

-- the commands that are told apart by name
pub data Verb : Type 0 where
  verb_capab : Verb
  verb_server : Verb
  verb_burst : Verb
  verb_endburst : Verb
  verb_uid : Verb
  verb_quit : Verb
  verb_nick : Verb
  verb_fjoin : Verb
  verb_ijoin : Verb
  verb_part : Verb
  verb_message : Verb
  verb_fmode : Verb
  verb_ftopic : Verb
  verb_away : Verb
  verb_ping : Verb
  verb_squit : Verb
  verb_other : Verb

abbrev verbs : Map Text Verb
verbs =
    (codes "CAPAB", verb_capab)
    ∷ (codes "SERVER", verb_server)
    ∷ (codes "BURST", verb_burst)
    ∷ (codes "ENDBURST", verb_endburst)
    ∷ (codes "UID", verb_uid)
    ∷ (codes "QUIT", verb_quit)
    ∷ (codes "NICK", verb_nick)
    ∷ (codes "FJOIN", verb_fjoin)
    ∷ (codes "IJOIN", verb_ijoin)
    ∷ (codes "PART", verb_part)
    ∷ (codes "PRIVMSG", verb_message)
    ∷ (codes "NOTICE", verb_message)
    ∷ (codes "FMODE", verb_fmode)
    ∷ (codes "FTOPIC", verb_ftopic)
    ∷ (codes "AWAY", verb_away)
    ∷ (codes "PING", verb_ping)
    ∷ (codes "SQUIT", verb_squit)
    ∷ []

unfoldable pub verb_of : Text → Verb
unfolding lookup
verb_of name = elim (lookup name verbs) [ none ↦ verb_other | some v ↦ v ]

unfoldable pub dispatch : Verb → Command → Text → LinkSession → LinkSession × List Event
dispatch verb_capab cmd source s = on_capab cmd s
dispatch verb_server cmd source s = on_server cmd source s
dispatch verb_burst cmd source s = (s, [])
dispatch verb_endburst cmd source s = (record s { phase = end_burst s.phase }, burst_complete ∷ [])
dispatch verb_uid cmd source s = on_uid cmd source s
dispatch verb_quit cmd source s = (s, user_quit source (get_or cmd.params 0 []) ∷ [])
dispatch verb_nick cmd source s = on_nick cmd source s
dispatch verb_fjoin cmd source s = on_fjoin cmd s
dispatch verb_ijoin cmd source s = on_ijoin cmd source s
dispatch verb_part cmd source s =
    (s, remote_part (get_or cmd.params 0 []) source (get_or cmd.params 1 []) ∷ [])
dispatch verb_message cmd source s = on_message cmd source s
dispatch verb_fmode cmd source s = on_fmode cmd s
dispatch verb_ftopic cmd source s = on_ftopic cmd source s
dispatch verb_away cmd source s = (s, away source (nonempty (get_elem? cmd.params 0)) ∷ [])
dispatch verb_ping cmd source s = on_ping cmd source s
dispatch verb_squit cmd source s =
    (s, server_split (get_or cmd.params 0 []) (get_or cmd.params 1 []) ∷ [])
dispatch verb_other cmd source s = (s, [])

-- what stands behind the first colon
abbrev pub error_reason : Text → Text
error_reason raw = elim (split_once b':' raw) [ none ↦ [] | some (before, reason) ↦ reason ]

-- a line that does not start with ERROR
unfoldable pub handle_command : Text → LinkSession → LinkSession × List Event
handle_command raw s = elim (parse raw) [
  | none ↦ (s, [])
  | some cmd ↦ dispatch (verb_of cmd.name) cmd (or_default cmd.prefix) s
]

abbrev pub is_dead : Phase → Bool
is_dead dead = true
is_dead phase = false

unfoldable pub handle_line : Text → LinkSession → LinkSession × List Event
handle_line raw s =
    if is_dead s.phase
    then (s, [])
    else if is_some (strip_prefix (codes "ERROR") raw)
    then (record s { phase = dead }, failed (error_reason raw) ∷ [])
    else handle_command raw s
