-- ===== src/Link/Lifecycle.antt =====
-- src/link.rs: the phases of a session and the lines sent, over a run of lines.
use chonkline.Base.{
  ℕ, ◌+◌, ◌≤◌, ◌≡◌, refl, sym, ap, ◌∙◌, Bool, true, false, not, none, some, List, [], ◌∷◌, ◌++◌,
  length, retain, Text, if_both, if_cases, codes, arith, nat_beq,
}
use chonkline.Str.{strip_prefix}
use chonkline.Network.{valid_sid}
use chonkline.Link.{
  Phase, capab, bursting, linked, dead, LinkConfig, LinkSession, send, send_server, server_line,
  send_capab, begin, new,
}
use chonkline.Link.Dispatch.{end_burst}
use chonkline.Link.Handlers.{is_some}
use chonkline.Link.Induction.{run, Closed, run-Closed, accept, other_line}

abbrev pub registered : Phase → Bool
registered bursting = true
registered linked = true
registered phase = false

-- a link that bursts or is linked knows its peer, by a well-formed SID
pub record IsSound (s : LinkSession) : Type 0 where
  pub knows :
      registered s.phase ≡ true → (sid : Text) × (s.peer_sid ≡ some sid) × (valid_sid sid ≡ true)

end_burst-registered : (p : Phase) → registered (end_burst p) ≡ registered p
end_burst-registered capab = refl
end_burst-registered bursting = refl
end_burst-registered linked = refl
end_burst-registered dead = refl

send_server-IsSound : (s : LinkSession) → IsSound s → IsSound (send_server s)
unfolding send_server
send_server-IsSound s h = if_both IsSound s.sent_server h (record { knows = h.knows })

accept-IsSound :
    (sid name : Text) (s : LinkSession) → valid_sid sid ≡ true → IsSound (accept sid name s)
accept-IsSound sid name s valid = record { knows = λ _. (sid, refl, valid) }

IsSound-Closed : Closed IsSound
IsSound-Closed = record {
  announced = send_server-IsSound;
  answered = λ s line _ h. record { knows = h.knows };
  died = λ s h. record { knows = λ k. cc };
  ended = λ s h. record { knows = λ k. h.knows (sym (end_burst-registered s.phase) ∙ k) };
  accepted = λ s sid name valid h.
      let peer = accept-IsSound sid name s valid in
      if_both IsSound (not s.outbound_link) (send_server-IsSound _ peer) peer;
}

-- Over any run of lines a link that bursts or is linked knows its peer, by a well-formed SID, where
-- the session that it starts from does.
pub run-IsSound : (lines : List Text) (s : LinkSession) → IsSound s → IsSound (run lines s).0
run-IsSound lines s h = run-Closed IsSound IsSound-Closed lines s h

-- the lines that start with SERVER
abbrev is_server_line : Text → Bool
is_server_line line = is_some (strip_prefix (codes "SERVER ") line)

abbrev one_if : Bool → ℕ
one_if true = 1
one_if false = 0

abbrev pub server_lines : List Text → ℕ
server_lines out = length (retain is_server_line out)

one_if-le : (b : Bool) → one_if b ≤ 1
one_if-le true = omega arith
one_if-le false = omega arith

server_lines-snoc :
    (out : List Text) (line : Text)
    → server_lines (out ++ line ∷ []) ≡ server_lines out + one_if (is_server_line line)
server_lines-snoc [] line = ground arith
server_lines-snoc (x ∷ out) line = ground (arith, server_lines-snoc out line)

S_other : (c : ℕ) → nat_beq b'S' c ≡ true → not (nat_beq c b'S') ≡ true → false ≡ true
S_other c h k = ground arith

other_line-is_server_line : (line : Text) → other_line line ≡ true → is_server_line line ≡ false
unfolding strip_prefix
other_line-is_server_line [] h = refl
other_line-is_server_line (c ∷ line) h =
    if_cases (λ o. is_some o ≡ false) (nat_beq b'S' c) _ none
      (λ e. let impossible = S_other c e h in cc) (λ _. refl)

server_line-is_server_line : (cfg : LinkConfig) → is_server_line (server_line cfg) ≡ true
unfolding strip_prefix server_line
server_line-is_server_line cfg = refl

-- the SERVER line has been sent once where the flag says so, and never otherwise
pub record Counts (s : LinkSession) : Type 0 where
  pub once : server_lines s.out ≡ one_if s.sent_server

-- and it has been sent where the peer is registered, and where we opened the link
pub record IsCounted (s : LinkSession) : Type 0 where
  pub counts : Counts s
  pub sent : registered s.phase ≡ true → s.sent_server ≡ true
  pub opener : s.outbound_link ≡ true → s.sent_server ≡ true

counts_snoc :
    (out : List Text) (line : Text) (n k : ℕ)
    → server_lines out ≡ n
    → one_if (is_server_line line) ≡ k
    → server_lines (out ++ line ∷ []) ≡ n + k
counts_snoc out line n k h e = rw (server_lines-snoc out line, h, e) refl

one_more : (cfg : LinkConfig) → one_if (is_server_line (server_line cfg)) ≡ 1
one_more cfg = rw (server_line-is_server_line cfg) refl

no_more : (line : Text) → other_line line ≡ true → one_if (is_server_line line) ≡ 0
no_more line h = rw (other_line-is_server_line line h) refl

announce : (s : LinkSession) → Counts s → IsCounted (send_server s)
unfolding send_server
announce s h =
    if_cases IsCounted s.sent_server s (send (server_line s.cfg) (record s { sent_server = true }))
      (λ e. record { counts = h; sent = λ _. e; opener = λ _. e })
      (λ e. record {
        counts = record {
          once = counts_snoc s.out (server_line s.cfg) 0 1 (h.once ∙ ap one_if e) (one_more s.cfg);
        };
        sent = λ _. refl;
        opener = λ _. refl;
      })

quiet :
    (s : LinkSession) (line : Text) → other_line line ≡ true → IsCounted s → IsCounted (send line s)
quiet s line o h = record {
  counts = record {
    once = counts_snoc s.out line _ 0 h.counts.once (no_more line o) ∙ omega arith;
  };
  sent = h.sent;
  opener = h.opener;
}

IsCounted-Closed : Closed IsCounted
IsCounted-Closed = record {
  announced = λ s h. announce s h.counts;
  answered = quiet;
  died =
      λ s h. record { counts = record { once = h.counts.once }; sent = λ k. cc; opener = h.opener };
  ended = λ s h. record {
    counts = record { once = h.counts.once };
    sent = λ k. h.sent (sym (end_burst-registered s.phase) ∙ k);
    opener = h.opener;
  };
  accepted = λ s sid name valid h.
      let counts : Counts (accept sid name s) = record { once = h.counts.once } in
      if_cases IsCounted (not s.outbound_link) (send_server (accept sid name s)) (accept sid name s)
        (λ _. announce (accept sid name s) counts)
        (λ e. record { counts = counts; sent = λ _. h.opener (ground arith); opener = h.opener });
}

begin-IsCounted : (cfg : LinkConfig) (outbound : Bool) → IsCounted (begin (new cfg outbound))
unfolding begin send_capab send_server server_line strip_prefix
begin-IsCounted cfg true = record {
  counts = record { once = refl };
  sent = λ _. refl;
  opener = λ _. refl;
}
begin-IsCounted cfg false = record {
  counts = record { once = refl };
  sent = λ k. cc;
  opener = λ k. cc;
}

IsCounted-bounds :
    (s : LinkSession)
    → IsCounted s
    → (server_lines s.out ≤ 1) × (registered s.phase ≡ true → server_lines s.out ≡ 1)
IsCounted-bounds s h =
    (rw h.counts.once (one_if-le s.sent_server), λ k. h.counts.once ∙ ap one_if (h.sent k))

-- From the beginning of a link on, whoever opened it and whatever lines arrive, our SERVER line is
-- among the lines sent once at most, and exactly once where the peer is registered.
pub run-server_lines :
    (cfg : LinkConfig) (outbound : Bool) (lines : List Text)
    → (server_lines (run lines (begin (new cfg outbound))).0.out ≤ 1)
      × (registered (run lines (begin (new cfg outbound))).0.phase ≡ true
          → server_lines (run lines (begin (new cfg outbound))).0.out ≡ 1)
run-server_lines cfg outbound lines =
    IsCounted-bounds _
      (run-Closed IsCounted IsCounted-Closed lines _ (begin-IsCounted cfg outbound))
