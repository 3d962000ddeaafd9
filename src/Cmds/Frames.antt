-- ===== src/Cmds/Frames.antt =====
-- src/cmds.rs: the handlers' answers and announcements, which leave users and channels alone.
use chonkline.Base.{
  ℕ, ◌≡◌, refl, ◌∙◌, not, ◌&&◌, List, [], ◌∷◌, nat_beq, Text, Option-cases, inl, inr, if_both,
  nat_eq, length, leb, ltb,
}
use chonkline.State.Casemap.{norm_nick}
use chonkline.State.Server.{find_by_id, chan}
use chonkline.Network.{Network, uuid_for_local, members_of}
use chonkline.Cmds.{World, deliver, numeric, relay_tagged, relay_all, to_links, is_id}
use chonkline.Cmds.Announce.{
  has_any, relay_join_to_links, broadcast_join, send_topic_state, joiner_replies,
}

-- the tables of users and channels, and the registered channels, as they were
pub record Frame (w v : World) : Type 0 where
  pub users : v.st.users ≡ w.st.users
  pub unreg : v.st.unreg ≡ w.st.unreg
  pub chans : v.st.chans ≡ w.st.chans
  pub chanreg : v.chanreg ≡ w.chanreg

pub unchanged-Frame : (w : World) → Frame w w
unchanged-Frame w = record { users = refl; unreg = refl; chans = refl; chanreg = refl }

pub then-Frame : {w v x : World} → Frame w v → Frame v x → Frame w x
then-Frame f g = record {
  users = g.users ∙ f.users;
  unreg = g.unreg ∙ f.unreg;
  chans = g.chans ∙ f.chans;
  chanreg = g.chanreg ∙ f.chanreg;
}

pub deliver-Frame : (id : ℕ) (line : Text) (w : World) → Frame w (deliver id line w)
unfolding deliver
deliver-Frame id line w = elim (Option-cases (find_by_id id w.st)) [
  | inl n ↦
      rw (n, deliver)
        (if_both (Frame w) (is_id id w.reply_for && not w.bypass_reply_capture)
          (record { users = refl; unreg = refl; chans = refl; chanreg = refl }) (unchanged-Frame w))
  | inr (u, n) ↦
      rw (n, deliver)
        (if_both (Frame w) (is_id id w.reply_for && not w.bypass_reply_capture)
          (record { users = refl; unreg = refl; chans = refl; chanreg = refl })
          (record { users = refl; unreg = refl; chans = refl; chanreg = refl }))
]

pub numeric-Frame :
    (id : ℕ) (code : Text) (args : List Text) (w : World) → Frame w (numeric id code args w)
unfolding numeric
numeric-Frame id code args w = search deliver-Frame

pub relay_tagged-Frame : (id : ℕ) (base : Text) (w : World) → Frame w (relay_tagged id base w)
unfolding relay_tagged
relay_tagged-Frame id base w = search deliver-Frame

pub relay_all-Frame : (ids : List ℕ) (base : Text) (w : World) → Frame w (relay_all ids base w)
unfolding relay_all
relay_all-Frame [] base w = unchanged-Frame w
relay_all-Frame (id ∷ ids) base w =
    then-Frame (relay_tagged-Frame id base w) (relay_all-Frame ids base (relay_tagged id base w))

pub to_links-Frame : (line : Text) (w : World) → Frame w (to_links line w)
unfolding to_links
to_links-Frame line w =
    if_both (Frame w) w.linked (record { users = refl; unreg = refl; chans = refl; chanreg = refl })
      (unchanged-Frame w)

pub broadcast_join-Frame :
    (id : ℕ) (mids : List ℕ) (from display : Text) (w : World)
    → Frame w (broadcast_join id mids from display w)
unfolding broadcast_join
broadcast_join-Frame id [] from display w = unchanged-Frame w
broadcast_join-Frame id (mid ∷ mids) from display w =
    if_both (Frame w) (nat_beq mid id) (broadcast_join-Frame id mids from display w)
      (then-Frame (relay_tagged-Frame mid _ w) (broadcast_join-Frame id mids from display _))

network-Frame :
    (w : World) (net : Network) (line : Text)
    → Frame w (to_links line (record w { st = record w.st { network = net } }))
network-Frame w net line =
    let v = record w { st = record w.st { network = net } } in
    then-Frame (record { users = refl; unreg = refl; chans = refl; chanreg = refl })
      (to_links-Frame line v)

pub relay_join_to_links-Frame :
    (id : ℕ) (key display : Text) (w : World) → Frame w (relay_join_to_links id key display w)
unfolding relay_join_to_links
relay_join_to_links-Frame id key display w = if_both (Frame w) (not w.linked) (unchanged-Frame w) (
    if_both (Frame w) (has_any (members_of key (uuid_for_local id w.st.network).0))
      (network-Frame w _ _) (network-Frame w _ _))

pub send_topic_state-Frame :
    (id : ℕ) (display : Text) (w : World) → Frame w (send_topic_state id display w)
unfolding send_topic_state
send_topic_state-Frame id display w = elim (Option-cases (chan (norm_nick display) w.st)) [
  | inl n ↦ rw (n, send_topic_state) (numeric-Frame id _ _ w)
  | inr (c, n) ↦
      rw (n, send_topic_state)
        (if_both (Frame w) (leb (length c.topic) 0) (numeric-Frame id _ _ w) (
          if_both (Frame w) (ltb 0 (length c.topic_setter) && ltb 0 c.topic_time)
            (then-Frame (numeric-Frame id _ _ w) (numeric-Frame id _ _ _))
            (numeric-Frame id _ _ w)))
]

pub joiner_replies-Frame :
    (id : ℕ) (display : Text) (w : World) → Frame w (joiner_replies id display w)
unfolding joiner_replies
joiner_replies-Frame id display w = then-Frame (relay_tagged-Frame id _ w) (
    then-Frame (send_topic_state-Frame id display _)
      (then-Frame (numeric-Frame id _ _ _) (numeric-Frame id _ _ _)))
