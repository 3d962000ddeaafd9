-- ===== src/Link/Induction.antt =====
-- src/link.rs: runs of lines, and induction over them by the ways to change a session.
use chonkline.Base.{
  ◌≡◌, refl, sym, ap, subst, Bool, true, false, not, some, List, [], ◌∷◌, ◌++◌, get_or, Text,
  text_eq, ◌==◌, if◌then◌else◌, if_cases, if_both, Option-cases, inl, inr, codes, nat_beq,
}
use chonkline.Proto.{Command, parse}
use chonkline.Network.{valid_sid}
use chonkline.Link.{bursting, dead, LinkSession, Event, send, send_server, or_default}
use chonkline.Link.Dispatch.{
  Verb, verb_capab, verb_server, verb_burst, verb_endburst, verb_uid, verb_quit, verb_nick,
  verb_fjoin, verb_ijoin, verb_part, verb_message, verb_fmode, verb_ftopic, verb_away, verb_ping,
  verb_squit, verb_other, end_burst, verb_of, dispatch, handle_command, handle_line, is_dead,
}
use chonkline.Link.Handlers.{
  on_capab, on_server, register_peer, register_sid, introduce, handshake_sid, pong_line, on_uid,
  on_nick, on_fjoin, on_ijoin, on_message, on_fmode, on_ftopic, on_ping,
}

-- inbound lines, one by one, with the events of all
unfoldable pub run : List Text → LinkSession → LinkSession × List Event
run [] s = (s, [])
run (raw ∷ lines) s =
    let (s1, events) = handle_line raw s in let (s2, more) = run lines s1 in (s2, events ++ more)

handle_line-dead : (raw : Text) (s : LinkSession) → s.phase ≡ dead → handle_line raw s ≡ (s, [])
unfolding handle_line
handle_line-dead raw s h = let d : is_dead s.phase ≡ true = ap is_dead h in rw d refl

-- A link that is dead takes no line: its state stays and nothing is applied or sent.
pub run-dead : (lines : List Text) (s : LinkSession) → s.phase ≡ dead → run lines s ≡ (s, [])
unfolding run
run-dead [] s h = refl
run-dead (raw ∷ lines) s h = rw (handle_line-dead raw s h, run-dead lines s h) refl

-- a result whose session is `s`
record Same (s : LinkSession) (r : LinkSession × List Event) : Type 0 where
  pub same : r.0 ≡ s

-- the commands that can change the session
abbrev changes : Verb → Bool
changes verb_capab = true
changes verb_server = true
changes verb_endburst = true
changes verb_ping = true
changes v = false

kept : {s : LinkSession} {events : List Event} → Same s (s, events)
kept = record { same = refl }

-- Any other command leaves the session as it is.
dispatch-Same :
    (v : Verb) (c : Command) (source : Text) (s : LinkSession)
    → changes v ≡ false
    → Same s (dispatch v c source s)
unfolding dispatch on_uid on_nick on_fjoin on_ijoin on_message on_fmode on_ftopic
dispatch-Same verb_capab c source s h = cc
dispatch-Same verb_server c source s h = cc
dispatch-Same verb_endburst c source s h = cc
dispatch-Same verb_ping c source s h = cc
dispatch-Same verb_burst c source s h = kept
dispatch-Same verb_uid c source s h = if_both (Same s) _ kept kept
dispatch-Same verb_quit c source s h = kept
dispatch-Same verb_nick c source s h = if_both (Same s) _ kept kept
dispatch-Same verb_fjoin c source s h = if_both (Same s) _ kept kept
dispatch-Same verb_ijoin c source s h = if_both (Same s) _ kept kept
dispatch-Same verb_part c source s h = kept
dispatch-Same verb_message c source s h = if_both (Same s) _ kept kept
dispatch-Same verb_fmode c source s h = if_both (Same s) _ kept kept
dispatch-Same verb_ftopic c source s h = if_both (Same s) _ kept kept
dispatch-Same verb_away c source s h = kept
dispatch-Same verb_squit c source s h = kept
dispatch-Same verb_other c source s h = kept

-- the peer of an accepted SERVER
abbrev pub accept : Text → Text → LinkSession → LinkSession
accept sid name s = record s { peer_sid = some sid; peer_name = some name; phase = bursting }

-- a line of another kind than SERVER, as the first character shows
abbrev pub other_line : Text → Bool
other_line [] = true
other_line (c ∷ s) = not (nat_beq c b'S')

-- every way to change a session keeps `P`
pub record Closed (P : LinkSession → Type 0) : Type 0 where
  pub announced : (s : LinkSession) → P s → P (send_server s)
  pub answered : (s : LinkSession) (line : Text) → other_line line ≡ true → P s → P (send line s)
  pub died : (s : LinkSession) → P s → P (record s { phase = dead })
  pub ended : (s : LinkSession) → P s → P (record s { phase = end_burst s.phase })
  pub accepted :
      (s : LinkSession) (sid name : Text)
      → valid_sid sid ≡ true
      → P s
      → P (if not s.outbound_link then send_server (accept sid name s) else accept sid name s)

module _ (P : LinkSession → Type 0) (k : Closed P) where
  record After (r : LinkSession × List Event) : Type 0 where
    pub after : P r.0

  on_capab-After : (c : Command) (s : LinkSession) → P s → After (on_capab c s)
  unfolding on_capab
  on_capab-After c s h = record { after = if_both P _ (k.announced s h) h }

  register_sid-After : (c : Command) (s : LinkSession) → P s → After (register_sid c s)
  unfolding register_sid
  register_sid-After c s h =
      if_cases After (valid_sid (handshake_sid c.params)) _ _
        (λ valid. record {
          after = k.accepted s (handshake_sid c.params) (get_or c.params 0 []) valid h;
        })
        (λ _. record { after = k.answered _ (codes "ERROR :Invalid SID") refl (k.died s h) })

  register_peer-After : (c : Command) (s : LinkSession) → P s → After (register_peer c s)
  unfolding register_peer
  register_peer-After c s h =
      if_both After (get_or c.params 1 [] == s.cfg.recv_password) (register_sid-After c s h)
        (record { after = k.answered _ (codes "ERROR :Link password mismatch") refl (k.died s h) })

  on_server-After :
      (c : Command) (source : Text) (s : LinkSession) → P s → After (on_server c source s)
  unfolding on_server introduce
  on_server-After c source s h =
      if_both After _ (if_both After _ (record { after = h }) (record { after = h }))
        (register_peer-After c s h)

  dispatch-After :
      (v : Verb) (c : Command) (source : Text) (s : LinkSession)
      → P s
      → After (dispatch v c source s)
  unfolding dispatch on_ping
  dispatch-After verb_capab c source s h = on_capab-After c s h
  dispatch-After verb_server c source s h = on_server-After c source s h
  dispatch-After verb_endburst c source s h = record { after = k.ended s h }
  dispatch-After verb_ping c source s h = record { after = k.answered s (pong_line _ _) refl h }
  dispatch-After v c source s h = record {
    after = subst P (sym (dispatch-Same v c source s refl).same) h;
  }

  handle_command-After : (raw : Text) (s : LinkSession) → P s → After (handle_command raw s)
  unfolding handle_command
  handle_command-After raw s h = elim (Option-cases (parse raw)) [
    | inl e ↦ rw (e, handle_command) (record { after = h })
    | inr (c, e) ↦
        rw (e, handle_command) (dispatch-After (verb_of c.name) c (or_default c.prefix) s h)
  ]

  handle_line-After : (raw : Text) (s : LinkSession) → P s → After (handle_line raw s)
  unfolding handle_line
  handle_line-After raw s h =
      if_both After _ (record { after = h })
        (if_both After _ (record { after = k.died s h }) (handle_command-After raw s h))

  pub run-Closed : (lines : List Text) (s : LinkSession) → P s → P (run lines s).0
  unfolding run
  run-Closed [] s h = h
  run-Closed (raw ∷ lines) s h =
      run-Closed lines (handle_line raw s).0 (handle_line-After raw s h).after
