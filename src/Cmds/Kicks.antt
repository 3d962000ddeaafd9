-- ===== src/Cmds/Kicks.antt =====
-- src/cmds.rs: who a KICK may put out.
use chonkline.Base.{
  ℕ, ◌≡◌, refl, ap, ◌∙◌, Bool, true, false, not, ◌&&◌, ◌||◌, Option, none, some, List, [], ◌∷◌,
  nat_beq, nat_beq_iff, ◌==◌, Text, text_eq, nat_eq, lookup, Bool-cases, inl, inr, arith, if_both,
  if_cases, get_elem?, text_beq_iff,
}
use chonkline.Base.Keys.{IsDistinct}
use chonkline.State.Casemap.{norm_nick, norm_nick_idem}
use chonkline.State.Channel.{Chn}
use chonkline.State.Server.{change_by_id, change_chan, chan}
use chonkline.Cmds.{
  World, deliver_nosuch_channel, deliver_not_on_channel, deliver_need_more_params,
  deliver_chanop_privs_needed, deliver_user_not_in_channel,
}
use chonkline.Cmds.Announce.{members_at}
use chonkline.Cmds.Leave.{
  forget_channel, ejected, member_of, op_of, exists_chan, kicked, kick_target, kick_from,
  handle_kick, target_of,
}
use chonkline.Cmds.Lookups.{chan_changed_at, map_some}
use chonkline.Cmds.Mirror.{seats, chan_first-Edited, ejected-Seats}
use chonkline.Cmds.Frames.{Frame, numeric-Frame, relay_all-Frame}
use chonkline.Cmds.Leaving.{dropped-seats}

-- the seat of one user in one channel, as it was
record Unmoved (other : ℕ) (key : Text) (w v : World) : Type 0 where
  unmoved : seats other (lookup key v.st.chans) ≡ seats other (lookup key w.st.chans)

framed : (other : ℕ) (key : Text) {w v : World} → Frame w v → Unmoved other key w v
framed other key f = record { unmoved = rw f.chans refl }

kicked-Unmoved :
    (id : ℕ) (raw : Text) (target : ℕ) (nick : Text) (comment : Option Text) (other : ℕ)
    (key : Text) (w : World)
    → IsDistinct w.st.chans
    → ((norm_nick raw == key) && nat_beq target other) ≡ false
    → Unmoved other key w (kicked id raw target nick comment w)
kicked-Unmoved id raw target nick comment other key w d ne =
    let norm = norm_nick raw in
    let st' = change_by_id target (forget_channel norm) (change_chan norm (ejected target) w.st) in
    let e =
      chan_first-Edited target norm (forget_channel norm) (ejected target) w.st (norm_nick_idem raw)
        (λ u. refl) in
    let v = record w { st = st' } in
    let after = relay_all-Frame (members_at norm w.st) _ v in
    record {
      unmoved =
          dropped-seats other key _ (rw after.chans (e.still_distinct d))
          ∙ (framed other key after).unmoved
          ∙ ap (seats other) (e.looked_up key)
          ∙ step;
    }
  where
    turned :
        (b : Bool)
        → nat_beq target other ≡ false
        → (o : Option Chn) → seats other (map_some (ejected target) o) ≡ seats other o
    turned b n none = refl
    turned b n (some c) = (ejected-Seats target).seats_turn c other ∙ rw n refl

    step :
        seats other (
          chan_changed_at
            (norm_nick raw == key)
            (ejected target)
            (lookup (norm_nick raw) w.st.chans)
            (lookup key w.st.chans))
        ≡ seats other (lookup key w.st.chans)
    step = elim (Bool-cases (norm_nick raw == key)) [
      | inl h ↦
          let apart : nat_beq target other ≡ false = rw h at ne in
          rw (h, (text_beq_iff (norm_nick raw) key).0 h) (turned true apart (lookup key w.st.chans))
      | inr h ↦ rw h refl
    ]

kick_target-Unmoved :
    (id : ℕ) (raw param : Text) (comment : Option Text) (other : ℕ) (key : Text) (w : World)
    → IsDistinct w.st.chans
    → nat_beq id other ≡ false
    → op_of id (lookup key w.st.chans) ≡ false
    → Unmoved other key w (kick_target id raw param comment w)
unfolding kick_target deliver_user_not_in_channel deliver_chanop_privs_needed chan
kick_target-Unmoved id raw param comment other key w d ne no_op =
    let target = target_of param w in
    let norm = norm_nick raw in
    if_both (Unmoved other key w) (nat_beq target.0 0 || not (member_of target.0 (chan norm w.st)))
      (framed other key (numeric-Frame id _ _ w))
      (if_cases (Unmoved other key w) (not (nat_beq target.0 id) && not (op_of id (chan norm w.st)))
        _ _ (λ e. framed other key (numeric-Frame id _ _ w))
        (λ e.
          kicked-Unmoved id raw target.0 target.1 comment other key w d
            (apart target.0 (nat_beq_iff target.0 id).0 e)))
  where
    apart :
        (target : ℕ)
        → (nat_beq target id ≡ true → target ≡ id)
        → (not (nat_beq target id) && not (op_of id (chan (norm_nick raw) w.st))) ≡ false
        → ((norm_nick raw == key) && nat_beq target other) ≡ false
    apart target same e = elim (Bool-cases (norm_nick raw == key)) [
      | inl h ↦
          let at_key : norm_nick raw ≡ key = (text_beq_iff (norm_nick raw) key).0 h in
          let no_op_here : op_of id (chan (norm_nick raw) w.st) ≡ false =
            rw (norm_nick_idem raw, at_key) no_op in
          let mine : nat_beq target id ≡ true = ground (arith, rw no_op_here at e) in
          rw (h, same mine) ne
      | inr h ↦ rw h refl
    ]

-- A KICK by somebody who is no operator of a channel takes nobody else off it, and seats nobody there,
-- whatever the KICK names.
pub handle_kick-Unmoved :
    (id : ℕ) (args : List Text) (other : ℕ) (key : Text) (w : World)
    → IsDistinct w.st.chans
    → nat_beq id other ≡ false
    → op_of id (lookup key w.st.chans) ≡ false
    → seats other (lookup key (handle_kick id args w).st.chans)
      ≡ seats other (lookup key w.st.chans)
unfolding handle_kick deliver_need_more_params deliver_nosuch_channel deliver_not_on_channel
handle_kick-Unmoved id [] other key w d ne no_op =
    (framed other key (numeric-Frame id _ _ w)).unmoved
handle_kick-Unmoved id (raw ∷ more) other key w d ne no_op =
    (if_both (Unmoved other key w) (not (exists_chan (chan (norm_nick raw) w.st)))
      (framed other key (numeric-Frame id _ _ w))
      (if_both (Unmoved other key w) (not (member_of id (chan (norm_nick raw) w.st)))
        (framed other key (numeric-Frame id _ _ w)) (from more))).unmoved
  where
    from : (more : List Text) → Unmoved other key w (kick_from id raw more w)
    from [] = framed other key (numeric-Frame id _ _ w)
    from (param ∷ more) = kick_target-Unmoved id raw param (get_elem? more 0) other key w d ne no_op
