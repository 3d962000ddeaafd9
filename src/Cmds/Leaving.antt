-- ===== src/Cmds/Leaving.antt =====
-- src/cmds.rs: PART and KICK and the users' lists, the channels' members.
use chonkline.Base.{
  ℕ, ◌≡◌, refl, sym, ◌∙◌, Bool, true, false, not, ◌&&◌, ◌||◌, Option, none, some, List, [], ◌∷◌,
  nat_beq, if◌then◌else◌, Text, text_eq, nat_eq, contains, lookup, Bool-cases, Option-cases, inl,
  inr, arith, if_both, if_cases, get_elem?,
}
use chonkline.Base.Keys.{IsDistinct}
use chonkline.State.Casemap.{norm_nick, norm_nick_idem}
use chonkline.State.Client.{Cx}
use chonkline.State.Channel.{Chn, is_member}
use chonkline.State.Server.{
  ServerState, find_by_id, change_by_id, change_chan, chan, drop_empty_channels, is_deserted,
  no_ids,
}
use chonkline.State.Server.Deserted.{
  deserted_at, lookup-drop_empty_channels, drop_empty_channels-IsDistinct,
}
use chonkline.Cmds.{
  World, numeric, deliver_nosuch_channel, deliver_not_on_channel, deliver_need_more_params,
  deliver_chanop_privs_needed, deliver_user_not_in_channel, listed,
}
use chonkline.Cmds.Announce.{on_state}
use chonkline.Cmds.Leave.{
  depart, forget_channel, ejected, member_of, op_of, exists_chan, part_one, part_each, handle_part,
  kicked, kick_target, kick_from, handle_kick, target_of, part_to_links, to_links_as,
}
use chonkline.Cmds.Lookups.{find_by_id_lem}
use chonkline.Cmds.Mirror.{
  lists, seats, user_first-Edited, chan_first-Edited, forget_channel-Lists, ejected-Seats,
}
use chonkline.Cmds.Frames.{
  Frame, unchanged-Frame, numeric-Frame, relay_tagged-Frame, relay_all-Frame, to_links-Frame,
}
use chonkline.Cmds.Membership.{IsGood, IsFine, Frame-IsFine, Edited-IsGood}
use chonkline.Cmds.Joining.{found_at}

no_member :
    (other : ℕ) (xs : List ℕ) (b : Bool) → (no_ids xs && b) ≡ true → contains other xs ≡ false
no_member other [] b h = refl
no_member other (x ∷ xs) b h = cc

-- a channel that is dropped had no members
pub dropped-seats :
    (other : ℕ) (key : Text) (st : ServerState)
    → IsDistinct st.chans
    → seats other (lookup key (drop_empty_channels st).chans) ≡ seats other (lookup key st.chans)
dropped-seats other key st d =
    rw (lookup-drop_empty_channels key st d) (empty (lookup key st.chans))
  where
    empty :
        (o : Option Chn)
        → seats other (if deserted_at st.network key o then none else o) ≡ seats other o
    empty none = refl
    empty (some c) = elim (Bool-cases (is_deserted st.network key c)) [
      | inl t ↦ rw t (sym (no_member other c.members _ t))
      | inr f ↦ rw f refl
    ]

find_by_id-dropped :
    (i : ℕ) (st : ServerState) → find_by_id i (drop_empty_channels st) ≡ find_by_id i st
unfolding drop_empty_channels
find_by_id-dropped i st = find_by_id_lem i (drop_empty_channels st) ∙ sym (find_by_id_lem i st)

dropped-IsGood : (id : ℕ) (st : ServerState) → IsGood id st → IsGood id (drop_empty_channels st)
dropped-IsGood id st g = record {
  there = (g.there.0, find_by_id-dropped id st ∙ g.there.1);
  mirror = record {
    mirrored = λ other key.
        rw (find_by_id-dropped other st)
          (g.mirror.mirrored other key ∙ sym (dropped-seats other key st g.mirror.distinct));
    distinct = drop_empty_channels-IsDistinct st g.mirror.distinct;
  };
}

told :
    (id : ℕ) (code : Text) (args : List Text) (w : World)
    → IsFine id w
    → IsFine id (numeric id code args w)
told id code args w g = Frame-IsFine id (numeric-Frame id code args w) g

unknown :
    (id : ℕ) (raw : Text) (w : World) → IsFine id w → IsFine id (deliver_nosuch_channel id raw w)
unfolding deliver_nosuch_channel
unknown id raw w g = search (told, g)

elsewhere :
    (id : ℕ) (raw : Text) (w : World) → IsFine id w → IsFine id (deliver_not_on_channel id raw w)
unfolding deliver_not_on_channel
elsewhere id raw w g = search (told, g)

part_to_links-Frame :
    (id : ℕ) (norm : Text) (reason : Option Text) (w : World)
    → Frame w (part_to_links id norm reason w)
part_to_links-Frame id norm reason w = elim (Option-cases (lookup id w.st.network.local_uuids)) [
  | inl n ↦ rw (n, part_to_links, to_links_as) (unchanged-Frame w)
  | inr (uuid, n) ↦ rw (n, part_to_links, to_links_as) (to_links-Frame _ w)
]

-- a user whom a channel holds leaves it
depart-IsFine :
    (id : ℕ) (norm : Text) (w : World)
    → norm_nick norm ≡ norm
    → (c : Chn) → chan norm w.st ≡ some c
    → IsFine id w
    → IsFine id (on_state (depart id norm) w)
depart-IsFine id norm w fold c h g =
    let (u, here) = g.good.there in
    record {
      good =
          Edited-IsGood id id norm false (forget_channel norm) (ejected id) w.st
            (depart id norm w.st) u c
            (user_first-Edited id norm (forget_channel norm) (ejected id) w.st fold (λ u. refl))
            (forget_channel-Lists norm) (ejected-Seats id) here (found_at norm c w.st fold h)
            g.good;
    }

Frame-chan : {w v : World} → Frame w v → (norm : Text) → chan norm v.st ≡ chan norm w.st
unfolding chan
Frame-chan f norm = rw f.chans refl

part_one-IsFine :
    (id : ℕ) (raw : Text) (reason : Option Text) (w : World)
    → IsFine id w
    → IsFine id (part_one id raw reason w)
unfolding part_one
part_one-IsFine id raw reason w g =
    let norm = norm_nick raw in
    let told_links = part_to_links-Frame id norm reason w in
    elim (Option-cases (chan norm w.st)) [
      | inl n ↦ rw (n, part_one) (unknown id raw w g)
      | inr (c, n) ↦
          let v = part_to_links id norm reason w in
          let left : IsFine id (on_state (depart id norm) v) =
            depart-IsFine id norm v (norm_nick_idem raw) c (Frame-chan told_links norm ∙ n)
              (Frame-IsFine id told_links g) in
          let relayed =
            Frame-IsFine id (relay_tagged-Frame id _ (on_state (depart id norm) v)) left in
          rw (n, part_one)
            (if_both (IsFine id) (not (member_of id (some c))) (elsewhere id raw w g)
              (Frame-IsFine id (relay_all-Frame _ _ _) relayed))
    ]

part_each-IsFine :
    (id : ℕ) (reason : Option Text) (list : List Text) (w : World)
    → IsFine id w
    → IsFine id (part_each id reason list w)
unfolding part_each
part_each-IsFine id reason [] w g = g
part_each-IsFine id reason (raw ∷ rest) w g =
    part_each-IsFine id reason rest _ (part_one-IsFine id raw reason w g)

-- A PART by a user who is there, whatever its channels, leaves the user there, every user's list of
-- channels in step with the channels' members, and no channel twice in the table.
pub handle_part-IsFine :
    (id : ℕ) (args : List Text) (w : World) → IsFine id w → IsFine id (handle_part id args w)
unfolding handle_part deliver_need_more_params
handle_part-IsFine id [] w g = search (told, g)
handle_part-IsFine id (list ∷ more) w g = record {
  good = dropped-IsGood id _ (part_each-IsFine id (get_elem? more 0) (listed list) w g).good;
}

-- whom a channel holds is there
seated-there :
    (target id : ℕ) (norm : Text) (c : Chn) (st : ServerState)
    → lookup norm st.chans ≡ some c
    → contains target c.members ≡ true
    → IsGood id st
    → (u : Cx) × (find_by_id target st ≡ some u)
seated-there target id norm c st h held g =
    let listed_here : lists norm (find_by_id target st) ≡ true =
      g.mirror.mirrored target norm ∙ rw h held in
    elim (Option-cases (find_by_id target st)) [
      | inl n ↦ let bad : false ≡ true = rw n at listed_here in cc
      | inr found ↦ found
    ]

kicked-IsFine :
    (id : ℕ) (raw : Text) (target : ℕ) (nick : Text) (comment : Option Text) (c : Chn) (w : World)
    → chan (norm_nick raw) w.st ≡ some c
    → contains target c.members ≡ true
    → IsFine id w
    → IsFine id (kicked id raw target nick comment w)
kicked-IsFine id raw target nick comment c w n held g =
    let norm = norm_nick raw in
    let fold = norm_nick_idem raw in
    let here = found_at norm c w.st fold n in
    let (u, there) = seated-there target id norm c w.st here held g.good in
    let st' = change_by_id target (forget_channel norm) (change_chan norm (ejected target) w.st) in
    let left : IsFine id (record w { st = st' }) = record {
      good =
          Edited-IsGood id target norm false (forget_channel norm) (ejected target) w.st st' u c
            (chan_first-Edited target norm (forget_channel norm) (ejected target) w.st fold
              (λ u. refl))
            (forget_channel-Lists norm) (ejected-Seats target) there here g.good;
    } in
    record { good = dropped-IsGood id _ (Frame-IsFine id (relay_all-Frame _ _ _) left).good }

kick_target-IsFine :
    (id : ℕ) (raw param : Text) (comment : Option Text) (w : World)
    → IsFine id w
    → IsFine id (kick_target id raw param comment w)
unfolding kick_target deliver_user_not_in_channel deliver_chanop_privs_needed is_member
kick_target-IsFine id raw param comment w g =
    let target = target_of param w in
    elim (Option-cases (chan (norm_nick raw) w.st)) [
      | inl n ↦
          rw (n, kick_target)
            (if_cases (IsFine id) (nat_beq target.0 0 || true) _ _ (λ e. search (told, g))
              (λ e. absurd (outside (nat_beq target.0 0) e)))
      | inr (c, n) ↦
          rw (n, kick_target)
            (if_cases (IsFine id) (nat_beq target.0 0 || not (contains target.0 c.members)) _ _
              (λ e. search (told, g))
              (λ e.
                if_both (IsFine id) (not (nat_beq target.0 id) && not (op_of id (some c)))
                  (search (told, g))
                  (kicked-IsFine id raw target.0 target.1 comment c w n
                    (inside (nat_beq target.0 0) (contains target.0 c.members) e) g)))
    ]
  where
    outside : (b : Bool) → (b || true) ≡ false → ⊥
    outside b e = ground (arith, e)

    inside : (b m : Bool) → (b || not m) ≡ false → m ≡ true
    inside b m e = ground (arith, e)

kick_from-IsFine :
    (id : ℕ) (raw : Text) (args : List Text) (w : World)
    → IsFine id w
    → IsFine id (kick_from id raw args w)
unfolding deliver_need_more_params
kick_from-IsFine id raw [] w g = search (told, g)
kick_from-IsFine id raw (param ∷ more) w g = kick_target-IsFine id raw param (get_elem? more 0) w g

-- A KICK by a user who is there, whomever it names, leaves the user there, every user's list of channels in
-- step with the channels' members, and no channel twice in the table.
pub handle_kick-IsFine :
    (id : ℕ) (args : List Text) (w : World) → IsFine id w → IsFine id (handle_kick id args w)
unfolding handle_kick deliver_need_more_params
handle_kick-IsFine id [] w g = search (told, g)
handle_kick-IsFine id (raw ∷ more) w g =
    if_both (IsFine id) (not (exists_chan (chan (norm_nick raw) w.st))) (unknown id raw w g) (
      if_both (IsFine id) (not (member_of id (chan (norm_nick raw) w.st))) (elsewhere id raw w g)
        (kick_from-IsFine id raw more w g))
