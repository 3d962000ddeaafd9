-- ===== src/Cmds/Admission.antt =====
-- src/cmds.rs: who is let into a channel that exists.
use chonkline.Base.{
  ℕ, ◌≡◌, ◌≢◌, ◌↔◌, ◌<◌, refl, ap, subst, ◌∙◌, Bool, true, false, not, ◌||◌, Option, some, [], ◌∷◌,
  ◌==◌, beq_refl, Text, text_eq, nat_eq, contains, lookup, Bool-cases, Option-cases, inl, inr,
  arith, if_both, text_beq_iff,
}
use chonkline.State.Casemap.{norm_nick, norm_nick_idem}
use chonkline.State.Client.{Cx}
use chonkline.State.Channel.{Chn, is_member, set_key_opt}
use chonkline.State.Channel.Edits.{invited, admit_plain, consume_invite, grant}
use chonkline.State.Server.{find_by_id, chan, change_chan}
use chonkline.Cmds.{World, deliver_join_denied, deliver_too_many_channels}
use chonkline.Cmds.Announce.{channels_of, max_channels, members_at, note_channel, on_state}
use chonkline.Cmds.Mirror.{seats, user_first-Edited, admitted-Seats}
use chonkline.Cmds.Frames.{
  Frame, then-Frame, numeric-Frame, relay_all-Frame, relay_join_to_links-Frame,
  broadcast_join-Frame, joiner_replies-Frame,
}
use chonkline.Cmds.Membership.{rest-seats}
use chonkline.Cmds.Joining.{found_at}
use chonkline.Cmds.Join.{
  Verdict, verdict, admitted, invite_only, needs_account, is_banned, bad_key, is_there, too_many,
  invex_ok, unidentified, banned, wrong_key, join_existing, enter, admit, answer_join,
  apply_founder_status, founder_here,
}

-- what every guard asks
pub record IsAllowed (id : ℕ) (given : Text) (u : Option Cx) (c : Chn) : Type 0 where
  pub invitation : (not c.invite_only || (invited id c || invex_ok u c)) ≡ true
  pub account : (not c.regonly || not (unidentified u)) ≡ true
  pub no_ban : banned u c ≡ false
  pub key : wrong_key c.chan_key given ≡ false
  pub new : is_member id c ≡ false
  pub room : channels_of u < max_channels

abbrev pub is_admitted : Verdict → Bool
is_admitted admitted = true
is_admitted _ = false

pub verdict_iff :
    (id : ℕ) (given : Text) (u : Option Cx) (c : Chn)
    → (is_admitted (verdict id given u c) ≡ true) ↔ IsAllowed id given u c
unfolding verdict
verdict_iff id given u c = (
  λ e. record {
    invitation = ground (arith, e);
    account = ground (arith, e);
    no_ban = ground (arith, e);
    key = ground (arith, e);
    new = ground (arith, e);
    room = ground (arith, e);
  },
  λ a. ground (arith, a.invitation, a.account, a.no_ban, a.key, a.new, a.room),
)

-- A key that a link has set, and that folding changes, is matched by no key that a JOIN gives.
pub set_key_opt-wrong_key :
    (key given : Text) (c : Chn)
    → key ≢ []
    → norm_nick key ≢ key
    → wrong_key (set_key_opt (some key) c).chan_key given ≡ true
unfolding set_key_opt
set_key_opt-wrong_key [] given c ne folds = absurd (ne refl)
set_key_opt-wrong_key (x ∷ key) given c ne folds =
    elim (Bool-cases (norm_nick given == (x ∷ key))) [
      | inl e ↦
          let same = (text_beq_iff (norm_nick given) (x ∷ key)).0 e in
          absurd (folds (subst (λ (k : Text). norm_nick k ≡ k) same (norm_nick_idem given)))
      | inr e ↦ rw e refl
    ]

-- seats as they were
record SameSeats (w v : World) : Type 0 where
  seats_same :
      (other : ℕ) (key : Text)
      → seats other (lookup key v.st.chans) ≡ seats other (lookup key w.st.chans)

Frame-SameSeats : {w v : World} → Frame w v → SameSeats w v
Frame-SameSeats f = record { seats_same = λ other key. rw f.chans refl }

then_same : {w v x : World} → SameSeats w v → SameSeats v x → SameSeats w x
then_same f g = record { seats_same = λ other key. g.seats_same other key ∙ f.seats_same other key }

founder-SameSeats :
    (id : ℕ) (norm : Text) (w : World) → SameSeats w (apply_founder_status id norm w)
unfolding apply_founder_status
founder-SameSeats id norm w = elim (Option-cases (find_by_id id w.st)) [
  | inl m ↦ rw (m, apply_founder_status) (record { seats_same = λ other key. refl })
  | inr (u, m) ↦ elim (Option-cases (chan norm w.st)) [
    | inl n ↦ rw (m, n, apply_founder_status) (record { seats_same = λ other key. refl })
    | inr (c, n) ↦
        let opped = on_state (change_chan norm (grant id true)) w in
        rw (m, n, apply_founder_status)
          (if_both (SameSeats w) (founder_here id norm w u c)
            (then_same
              (record {
                seats_same = λ other key.
                    rest-seats norm (grant id true) w.st (λ c. unfold grant in refl) other key;
              })
              (Frame-SameSeats (relay_all-Frame (members_at norm opped.st) _ opped)))
            (record { seats_same = λ other key. refl }))
  ]
]

record Seated (id : ℕ) (norm : Text) (b : Bool) (w : World) : Type 0 where
  seated : seats id (lookup norm w.st.chans) ≡ b

same-Seated :
    (id : ℕ) (norm : Text) (b : Bool) {w v : World}
    → SameSeats w v
    → Seated id norm b w
    → Seated id norm b v
same-Seated id norm b s h = record { seated = s.seats_same id norm ∙ h.seated }

admit-Seated :
    (id : ℕ) (norm : Text) (c : Chn) (w : World)
    → norm_nick norm ≡ norm
    → lookup norm w.st.chans ≡ some c
    → Seated id norm true (admit id norm c w)
admit-Seated id norm c w fold h =
    let f : Chn → Chn = λ c. consume_invite id (admit_plain id c) in
    let e = user_first-Edited id norm (note_channel norm) f w.st fold (λ u. refl) in
    let w1 = on_state (enter id norm) w in
    let inside : Seated id norm true w1 = record {
      seated =
          ap (seats id) (e.looked_up norm)
          ∙ rw (beq_refl norm, h) ((admitted-Seats id).seats_turn c id ∙ rw (beq_refl id) refl);
    } in
    same-Seated id norm true (founder-SameSeats id norm _) (
      same-Seated id norm true
        (Frame-SameSeats (
          then-Frame (relay_join_to_links-Frame id norm c.display w1) (
            then-Frame (broadcast_join-Frame id _ _ c.display _)
              (joiner_replies-Frame id c.display _))))
        inside)

told :
    {id : ℕ} {norm : Text} {b : Bool} {w v : World}
    → Frame w v
    → Seated id norm b w
    → Seated id norm b v
told {id} {norm} {b} f h = same-Seated id norm b (Frame-SameSeats f) h

answered-Seated :
    (v : Verdict) (id : ℕ) (norm : Text) (c : Chn) (w : World)
    → norm_nick norm ≡ norm
    → lookup norm w.st.chans ≡ some c
    → Seated id norm (is_admitted v || contains id c.members) (answer_join v id norm c w)
unfolding deliver_join_denied deliver_too_many_channels
answered-Seated admitted id norm c w fold h = admit-Seated id norm c w fold h
answered-Seated is_there id norm c w fold h = record { seated = rw h refl }
answered-Seated invite_only id norm c w fold h =
    told (numeric-Frame id _ _ w) (record { seated = rw h refl })
answered-Seated needs_account id norm c w fold h =
    told (numeric-Frame id _ _ w) (record { seated = rw h refl })
answered-Seated is_banned id norm c w fold h =
    told (numeric-Frame id _ _ w) (record { seated = rw h refl })
answered-Seated bad_key id norm c w fold h =
    told (numeric-Frame id _ _ w) (record { seated = rw h refl })
answered-Seated too_many id norm c w fold h =
    told (numeric-Frame id _ _ w) (record { seated = rw h refl })

-- A JOIN of a channel that exists seats the joiner there exactly when the joiner sat there already or the
-- verdict is to admit, which it is exactly when every guard lets the joiner pass: an invitation or an
-- exception on +i, an account on +R, no ban that no exception lifts, the key, and fewer than ten channels.
pub join_existing-seats :
    (id : ℕ) (norm given : Text) (c : Chn) (w : World)
    → norm_nick norm ≡ norm
    → chan norm w.st ≡ some c
    → (seats id (lookup norm (join_existing id norm given w).st.chans)
        ≡ (is_admitted (verdict id given (find_by_id id w.st) c) || contains id c.members))
      × ((is_admitted (verdict id given (find_by_id id w.st) c) ≡ true)
          ↔ IsAllowed id given (find_by_id id w.st) c)
unfolding join_existing
join_existing-seats id norm given c w fold n = (
  rw (n, join_existing)
      ((answered-Seated (verdict id given (find_by_id id w.st) c) id norm c w fold
        (found_at norm c w.st fold n)).seated),
  verdict_iff id given (find_by_id id w.st) c,
)
