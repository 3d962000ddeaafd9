-- ===== src/Link/Security.antt =====
-- src/link.rs: who may register, and what an unregistered peer can cause.
use chonkline.Base.{
  ◌≡◌, ◌≢◌, refl, ap, ◌∙◌, Bool, true, false, not, ◌&&◌, none, some, List, [], ◌∷◌, ◌++◌, get_or,
  Text, text_eq, ◌==◌, if◌then◌else◌, if_cases, if_both, codes, text_beq_iff, arith,
}
use chonkline.Str.{strip_prefix}
use chonkline.Proto.{Command, parse, is_empty}
use chonkline.Network.{valid_sid}
use chonkline.Link.{
  Phase, capab, bursting, linked, dead, LinkSession, Event, failed, peer_registered, send_server,
  or_default,
}
use chonkline.Link.Dispatch.{
  Verb, verb_capab, verb_server, verb_burst, verb_endburst, verb_uid, verb_quit, verb_nick,
  verb_fjoin, verb_ijoin, verb_part, verb_message, verb_fmode, verb_ftopic, verb_away, verb_ping,
  verb_squit, verb_other, verb_of, dispatch, handle_command, handle_line, is_dead,
}
use chonkline.Link.Handlers.{
  is_some, on_capab, on_server, register_peer, register_sid, refuse_password, introduce,
  handshake_sid, on_uid, on_nick, on_fjoin, on_ijoin, on_message, on_fmode, on_ftopic, on_ping,
}
use chonkline.Link.Induction.{run, run-dead}

-- the SIDs of the peers that the events register
abbrev pub registrations : List Event → List Text
registrations [] = []
registrations (peer_registered sid name desc ∷ events) = sid ∷ registrations events
registrations (e ∷ events) = registrations events

-- what a command must have to register a peer, and what the session is then
pub data Earned (c : Command) (s : LinkSession) (r : LinkSession × List Event) : Type 0 where
  nobody : registrations r.1 ≡ [] → Earned c s r
  peer :
      (sid : Text)
      → registrations r.1 ≡ sid ∷ []
      → get_or c.params 1 [] ≡ s.cfg.recv_password
      → valid_sid sid ≡ true
      → r.0.peer_sid ≡ some sid
      → r.0.phase ≡ bursting
      → Earned c s r

abbrev Bursts : Text → LinkSession → Type 0
Bursts sid t = (t.peer_sid ≡ some sid) × (t.phase ≡ bursting)

send_server-Bursts : (sid : Text) (s : LinkSession) → Bursts sid s → Bursts sid (send_server s)
unfolding send_server
send_server-Bursts sid s h = if_both {B = LinkSession} (Bursts sid) s.sent_server h h

register_sid-Earned :
    (c : Command) (s : LinkSession)
    → get_or c.params 1 [] ≡ s.cfg.recv_password
    → Earned c s (register_sid c s)
unfolding register_sid
register_sid-Earned c s word =
    if_cases (Earned c s) (valid_sid (handshake_sid c.params)) _ _
      (λ valid.
        let sid = handshake_sid c.params in
        let t : LinkSession = record s {
          peer_sid = some sid;
          peer_name = some (get_or c.params 0 []);
          phase = bursting;
        } in
        let k : Bursts sid (if not s.outbound_link then send_server t else t) =
          if_both {B = LinkSession} (Bursts sid) (not s.outbound_link)
            (send_server-Bursts sid t (refl, refl)) (refl, refl) in
        peer sid refl word valid k.0 k.1)
      (λ _. nobody refl)

register_peer-Earned : (c : Command) (s : LinkSession) → Earned c s (register_peer c s)
unfolding register_peer
register_peer-Earned c s =
    if_cases (Earned c s) (get_or c.params 1 [] == s.cfg.recv_password) _ (refuse_password s)
      (λ e. register_sid-Earned c s ((text_beq_iff (get_or c.params 1 []) s.cfg.recv_password).0 e))
      (λ _. nobody refl)

abbrev pub is_server_verb : Verb → Bool
is_server_verb verb_server = true
is_server_verb v = false

-- No command but SERVER registers a peer.
dispatch-registrations :
    (v : Verb) (c : Command) (source : Text) (s : LinkSession)
    → is_server_verb v ≡ false
    → registrations (dispatch v c source s).1 ≡ []
unfolding dispatch on_capab on_uid on_nick on_fjoin on_ijoin on_message on_fmode on_ftopic on_ping
dispatch-registrations verb_server c source s h = cc
dispatch-registrations verb_capab c source s h = refl
dispatch-registrations verb_endburst c source s h = refl
dispatch-registrations verb_ping c source s h = refl
dispatch-registrations verb_burst c source s h = refl
dispatch-registrations verb_quit c source s h = refl
dispatch-registrations verb_part c source s h = refl
dispatch-registrations verb_away c source s h = refl
dispatch-registrations verb_squit c source s h = refl
dispatch-registrations verb_other c source s h = refl
dispatch-registrations verb_uid c source s h = ground arith
dispatch-registrations verb_nick c source s h = ground arith
dispatch-registrations verb_fjoin c source s h = ground arith
dispatch-registrations verb_ijoin c source s h = ground arith
dispatch-registrations verb_message c source s h = ground arith
dispatch-registrations verb_fmode c source s h = ground arith
dispatch-registrations verb_ftopic c source s h = ground arith

introduce-registrations :
    (c : Command) (source : Text) (s : LinkSession) → registrations (introduce c source s).1 ≡ []
unfolding introduce
introduce-registrations c source s = ground arith

on_server-Earned :
    (c : Command) (source : Text) (s : LinkSession) → Earned c s (on_server c source s)
unfolding on_server
on_server-Earned c source s =
    if_both (Earned c s) (not (is_empty source) && is_some s.peer_sid)
      (nobody (introduce-registrations c source s)) (register_peer-Earned c s)

dispatch-Earned :
    (v : Verb) (c : Command) (source : Text) (s : LinkSession) → Earned c s (dispatch v c source s)
unfolding dispatch
dispatch-Earned verb_server c source s = on_server-Earned c source s
dispatch-Earned v c source s = nobody (dispatch-registrations v c source s refl)

is_dead-ne : (p : Phase) → p ≢ dead → is_dead p ≡ false
is_dead-ne capab h = refl
is_dead-ne bursting h = refl
is_dead-ne linked h = refl
is_dead-ne dead h = absurd (h refl)

-- a line for the dispatch, in a session that lives
handle_line-command :
    (raw : Text) (s : LinkSession) (c : Command)
    → s.phase ≢ dead
    → strip_prefix (codes "ERROR") raw ≡ none
    → parse raw ≡ some c
    → handle_line raw s ≡ dispatch (verb_of c.name) c (or_default c.prefix) s
unfolding handle_line handle_command dispatch
handle_line-command raw s c alive plain parsed =
    rw (is_dead-ne s.phase alive, plain, handle_command, parsed) refl

-- A line that parses as a command and does not start with ERROR registers nobody in a session that
-- lives, or it carries the password that we expect and a well-formed SID; the session then bursts
-- and the peer is that SID.
pub handle_line-Earned :
    (raw : Text) (s : LinkSession) (c : Command)
    → s.phase ≢ dead
    → strip_prefix (codes "ERROR") raw ≡ none
    → parse raw ≡ some c
    → Earned c s (handle_line raw s)
handle_line-Earned raw s c alive plain parsed =
    rw (handle_line-command raw s c alive plain parsed)
      (dispatch-Earned (verb_of c.name) c (or_default c.prefix) s)

-- a link that was refused for its password
pub record Refused (s : LinkSession) (after : LinkSession × List Event) : Type 0 where
  pub ended : after.0.phase ≡ dead
  pub unregistered : after.0.peer_sid ≡ none
  pub answered : after.0.out ≡ s.out ++ codes "ERROR :Link password mismatch" ∷ []
  pub reported : after.1 ≡ failed (codes "link password mismatch") ∷ []

register_peer-refused :
    (c : Command) (s : LinkSession)
    → get_or c.params 1 [] ≢ s.cfg.recv_password
    → register_peer c s ≡ refuse_password s
unfolding register_peer
register_peer-refused c s wrong =
    if_cases (λ r. r ≡ refuse_password s) (get_or c.params 1 [] == s.cfg.recv_password) _ _
      (λ e. absurd (wrong ((text_beq_iff (get_or c.params 1 []) s.cfg.recv_password).0 e)))
      (λ _. refl)

on_server-refused :
    (c : Command) (source : Text) (s : LinkSession)
    → s.peer_sid ≡ none
    → get_or c.params 1 [] ≢ s.cfg.recv_password
    → on_server c source s ≡ refuse_password s
unfolding on_server
on_server-refused c source s new_peer wrong =
    let fresh : (not (is_empty source) && is_some s.peer_sid) ≡ false = ground arith in
    rw fresh (register_peer-refused c s wrong)

refuse_password-Refused : (s : LinkSession) → s.peer_sid ≡ none → Refused s (refuse_password s)
refuse_password-Refused s new_peer = record {
  ended = refl;
  answered = refl;
  reported = refl;
  unregistered = new_peer;
}

-- A SERVER line with another password than we expect, from a peer that has not registered, in a
-- session that lives, ends the link: whatever lines follow, the session is dead and its peer is none,
-- the one line sent is `ERROR :Link password mismatch`, and the one event is a failure for
-- `link password mismatch`.
pub run-Refused :
    (raw : Text) (lines : List Text) (s : LinkSession) (c : Command)
    → s.phase ≢ dead
    → strip_prefix (codes "ERROR") raw ≡ none
    → parse raw ≡ some c
    → verb_of c.name ≡ verb_server
    → s.peer_sid ≡ none
    → get_or c.params 1 [] ≢ s.cfg.recv_password
    → Refused s (run (raw ∷ lines) s)
unfolding run dispatch
run-Refused raw lines s c alive plain parsed v new_peer wrong =
    let step : handle_line raw s ≡ refuse_password s =
      handle_line-command raw s c alive plain parsed
      ∙ ap (λ w. dispatch w c (or_default c.prefix) s) v
      ∙ on_server-refused c (or_default c.prefix) s new_peer wrong in
    rw (step, run-dead lines (refuse_password s).0 refl) (refuse_password-Refused s new_peer)

-- the events of the other commands hang on the line alone
dispatch-events :
    (v : Verb) (c : Command) (source : Text) (s t : LinkSession)
    → is_server_verb v ≡ false
    → (dispatch v c source s).1 ≡ (dispatch v c source t).1
unfolding dispatch on_capab on_uid on_nick on_fjoin on_ijoin on_message on_fmode on_ftopic on_ping
dispatch-events verb_server c source s t h = cc
dispatch-events verb_capab c source s t h = refl
dispatch-events verb_endburst c source s t h = refl
dispatch-events verb_ping c source s t h = refl
dispatch-events verb_burst c source s t h = refl
dispatch-events verb_quit c source s t h = refl
dispatch-events verb_part c source s t h = refl
dispatch-events verb_away c source s t h = refl
dispatch-events verb_squit c source s t h = refl
dispatch-events verb_other c source s t h = refl
dispatch-events verb_uid c source s t h = ground arith
dispatch-events verb_nick c source s t h = ground arith
dispatch-events verb_fjoin c source s t h = ground arith
dispatch-events verb_ijoin c source s t h = ground arith
dispatch-events verb_message c source s t h = ground arith
dispatch-events verb_fmode c source s t h = ground arith
dispatch-events verb_ftopic c source s t h = ground arith

-- Any command but SERVER has the same events in any two sessions that live, whether or not the peer
-- has registered or shown a password: what a line causes does not hang on the phase.
pub handle_line-any_phase :
    (raw : Text) (s t : LinkSession) (c : Command)
    → s.phase ≢ dead
    → t.phase ≢ dead
    → strip_prefix (codes "ERROR") raw ≡ none
    → parse raw ≡ some c
    → is_server_verb (verb_of c.name) ≡ false
    → (handle_line raw s).1 ≡ (handle_line raw t).1
handle_line-any_phase raw s t c alive lives plain parsed v =
    rw
      (
        handle_line-command raw s c alive plain parsed,
        handle_line-command raw t c lives plain parsed,
      )
      (dispatch-events (verb_of c.name) c (or_default c.prefix) s t v)
