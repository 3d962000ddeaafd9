-- ===== src/Cmds/Joining.antt =====
-- src/cmds.rs: JOIN and the users' lists, the channels' members.
use chonkline.Base.{
  ℕ, ◌≡◌, refl, sym, ap, subst, ◌∙◌, Bool, true, false, not, Option, none, some, List, [], ◌∷◌,
  nat_beq, ◌==◌, ◌+◌, if◌then◌else◌, Text, text_eq, nat_eq, contains, lookup, insert, contains_key,
  Bool-cases, Option-cases, inl, inr, arith, text_beq_iff, if_both, lookup-insert, leb, beq_refl,
}
use chonkline.Base.Keys.{insert-IsDistinct}
use chonkline.State.Casemap.{norm_nick, norm_nick_idem}
use chonkline.State.Sets.{contains-set_insert}
use chonkline.State.Channel as Channel
use chonkline.State.Channel.{Chn}
use chonkline.State.Channel.Edits.{admit_plain, admit_as_op, consume_invite, grant}
use chonkline.State.Server.{ServerState, find_by_id, change_chan, chan, chan_or_create}
use chonkline.Channels.{is_registered}
use chonkline.Cmds.{
  World, numeric, deliver_nosuch_channel, deliver_need_more_params, deliver_too_many_channels,
  deliver_join_denied,
}
use chonkline.Cmds.Announce.{
  max_channels, channels_of, relay_join_to_links, joiner_replies, note_channel, members_at,
  valid_channel, on_state,
}
use chonkline.Cmds.Join.{
  enter, admit, join_existing, join_new, join_one, join_each, handle_join, verdict, answer_join,
  Verdict, apply_founder_status, founder_here, create, invite_only, needs_account, is_banned,
  bad_key, is_there, too_many, admitted, topic_kept, founded, with_topic, first_member,
}
use chonkline.Cmds.Mirror.{
  Seats, lists, seats, user_first-Edited, chan_first-Edited, note_channel-Lists, admitted-Seats,
}
use chonkline.Cmds.Frames.{
  relay_all-Frame, numeric-Frame, relay_join_to_links-Frame, broadcast_join-Frame,
  joiner_replies-Frame, then-Frame,
}
use chonkline.Cmds.Lookups.{find_by_id_lem}
use chonkline.Cmds.Membership.{IsGood, IsFine, Frame-IsFine, rest-IsGood, Edited-IsGood}

founder-IsFine :
    (id : ℕ) (norm : Text) (w : World) → IsFine id w → IsFine id (apply_founder_status id norm w)
unfolding apply_founder_status
founder-IsFine id norm w g = elim (Option-cases (chan norm w.st)) [
  | inl n ↦ rw (g.good.there.1, n, apply_founder_status) g
  | inr (c, n) ↦
      let (u, here) = g.good.there in
      let opped = on_state (change_chan norm (grant id true)) w in
      rw (here, n, apply_founder_status)
        (if_both (IsFine id) (founder_here id norm w u c)
          (Frame-IsFine id (relay_all-Frame (members_at norm opped.st) _ opped) (record {
            good = rest-IsGood id norm (grant id true) w.st (λ c. unfold grant in refl) g.good;
          }))
          g)
]

pub found_at :
    (norm : Text) (c : Chn) (st : ServerState)
    → norm_nick norm ≡ norm
    → chan norm st ≡ some c
    → lookup norm st.chans ≡ some c
unfolding chan
found_at norm c st fold h = subst (λ (k : Text). lookup k st.chans ≡ some c) fold h

admit-IsFine :
    (id : ℕ) (norm : Text) (c : Chn) (w : World)
    → norm_nick norm ≡ norm
    → chan norm w.st ≡ some c
    → IsFine id w
    → IsFine id (admit id norm c w)
admit-IsFine id norm c w fold h g =
    let (u, here) = g.good.there in
    let w1 = on_state (enter id norm) w in
    let inside : IsFine id w1 = record {
      good =
          Edited-IsGood id id norm true (note_channel norm)
            (λ c. consume_invite id (admit_plain id c)) w.st w1.st u c
            (user_first-Edited id norm (note_channel norm)
              (λ c. consume_invite id (admit_plain id c)) w.st fold (λ u. refl))
            (note_channel-Lists norm) (admitted-Seats id) here (found_at norm c w.st fold h) g.good;
    } in
    founder-IsFine id norm _ (
      Frame-IsFine id
        (then-Frame (relay_join_to_links-Frame id norm c.display w1) (
          then-Frame (broadcast_join-Frame id _ _ c.display _)
            (joiner_replies-Frame id c.display _)))
        inside)

told :
    (id : ℕ) (code : Text) (args : List Text) (w : World)
    → IsFine id w
    → IsFine id (numeric id code args w)
told id code args w g = Frame-IsFine id (numeric-Frame id code args w) g

denied :
    (id code : ℕ) (display : Text) (w : World)
    → IsFine id w
    → IsFine id (deliver_join_denied id code display w)
unfolding deliver_join_denied
denied id code display w g = search (told, g)

crowded :
    (id : ℕ) (display : Text) (w : World)
    → IsFine id w
    → IsFine id (deliver_too_many_channels id display w)
unfolding deliver_too_many_channels
crowded id display w g = search (told, g)

unknown :
    (id : ℕ) (raw : Text) (w : World) → IsFine id w → IsFine id (deliver_nosuch_channel id raw w)
unfolding deliver_nosuch_channel
unknown id raw w g = search (told, g)

answer_join-IsFine :
    (v : Verdict) (id : ℕ) (norm : Text) (c : Chn) (w : World)
    → norm_nick norm ≡ norm
    → chan norm w.st ≡ some c
    → IsFine id w
    → IsFine id (answer_join v id norm c w)
answer_join-IsFine invite_only id norm c w fold h g = denied id 473 c.display w g
answer_join-IsFine needs_account id norm c w fold h g = search (told, g)
answer_join-IsFine is_banned id norm c w fold h g = denied id 474 c.display w g
answer_join-IsFine bad_key id norm c w fold h g = denied id 475 c.display w g
answer_join-IsFine is_there id norm c w fold h g = g
answer_join-IsFine too_many id norm c w fold h g = crowded id c.display w g
answer_join-IsFine admitted id norm c w fold h g = admit-IsFine id norm c w fold h g

join_existing-IsFine :
    (id : ℕ) (norm given : Text) (w : World)
    → norm_nick norm ≡ norm
    → IsFine id w
    → IsFine id (join_existing id norm given w)
unfolding join_existing
join_existing-IsFine id norm given w fold g = elim (Option-cases (chan norm w.st)) [
  | inl n ↦ rw (n, join_existing) g
  | inr (c, n) ↦
      rw (n, join_existing)
        (answer_join-IsFine (verdict id given (find_by_id id w.st) c) id norm c w fold n g)
]

with_topic-members : (topic : Text) (c : Chn) → (with_topic topic c).members ≡ c.members
with_topic-members [] c = refl
with_topic-members (x ∷ topic) c = refl

founded-Seats :
    (registered : Bool) (topic : Text) (id : ℕ) → Seats id true (founded registered topic id)
unfolding admit_plain admit_as_op
founded-Seats registered topic id = record {
  seats_turn = λ c other.
      ap (contains other) (with_topic-members topic (first_member registered id c))
      ∙ turn registered c other;
}
  where
    turn :
        (registered : Bool) (c : Chn) (other : ℕ)
        → contains other (first_member registered id c).members
          ≡ (if nat_beq id other then true else contains other c.members)
    turn true c other = contains-set_insert id other c.members ∙ ground arith
    turn false c other = contains-set_insert id other c.members ∙ ground arith

-- a channel without members that was not there
chan_or_create-IsGood :
    (id : ℕ) (norm display : Text) (now : ℕ) (st : ServerState)
    → norm_nick norm ≡ norm
    → lookup norm st.chans ≡ none
    → IsGood id st
    → IsGood id (chan_or_create norm display now st)
      × (lookup norm (chan_or_create norm display now st).chans ≡ some (Channel.new display now))
unfolding chan_or_create contains_key
chan_or_create-IsGood id norm display now st fold n g =
    rw (fold, n, contains_key, chan_or_create)
      (
        record {
          there = (g.there.0, others id ∙ g.there.1);
          mirror = record {
            mirrored = λ other key.
                rw (others other, lookup-insert norm key fresh st.chans) (step other key);
            distinct = insert-IsDistinct norm (Channel.new display now) st.chans g.mirror.distinct;
          };
        },
        lookup-insert norm norm (Channel.new display now) st.chans ∙ rw (beq_refl norm) refl,
      )
  where
    fresh : Chn
    fresh = Channel.new display now

    others :
        (i : ℕ) → find_by_id i (record st { chans = insert norm fresh st.chans }) ≡ find_by_id i st
    others i =
        find_by_id_lem i (record st { chans = insert norm fresh st.chans })
        ∙ sym (find_by_id_lem i st)

    step :
        (other : ℕ) (key : Text)
        → lists key (find_by_id other st)
          ≡ seats other (if norm == key then some fresh else lookup key st.chans)
    step other key = elim (Bool-cases (norm == key)) [
      | inl e ↦
          let absent : lookup key st.chans ≡ none =
            subst (λ (k : Text). lookup k st.chans ≡ none) ((text_beq_iff norm key).0 e) n in
          rw e (rw absent at (g.mirror.mirrored other key))
      | inr e ↦ rw e (g.mirror.mirrored other key)
    ]

join_new-IsFine :
    (id : ℕ) (norm display : Text) (w : World)
    → norm_nick norm ≡ norm
    → chan norm w.st ≡ none
    → IsFine id w
    → IsFine id (join_new id norm display w)
unfolding join_new
join_new-IsFine id norm display w fold n g =
    let absent : lookup norm w.st.chans ≡ none =
      subst (λ (k : Text). lookup k w.st.chans ≡ none) fold (unfold chan in n) in
    let st1 = chan_or_create norm display w.now w.st in
    let (good, made) = chan_or_create-IsGood id norm display w.now w.st fold absent g.good in
    let registered = is_registered norm w.chanreg in
    let F = founded registered (if registered then topic_kept norm w else []) id in
    let w1 = record w { st = create id norm display w } in
    let (u, here) = good.there in
    let inside : IsFine id w1 = record {
      good =
          Edited-IsGood id id norm true (note_channel norm) F st1 w1.st u _
            (chan_first-Edited id norm (note_channel norm) F st1 fold (λ u. refl))
            (note_channel-Lists norm) (founded-Seats registered _ id) here made good;
    } in
    let answered : IsFine id (joiner_replies id display (relay_join_to_links id norm display w1)) =
      Frame-IsFine id
        (then-Frame (relay_join_to_links-Frame id norm display w1)
          (joiner_replies-Frame id display _))
        inside in
    if_both (IsFine id) (leb max_channels (channels_of (find_by_id id w.st)))
      (crowded id display w g)
      (if_both (IsFine id) registered (founder-IsFine id norm _ answered) answered)

join_one-IsFine :
    (id : ℕ) (raw given : Text) (w : World) → IsFine id w → IsFine id (join_one id raw given w)
unfolding join_one
join_one-IsFine id raw given w g =
    let norm = norm_nick raw in
    if_both (IsFine id) (not (valid_channel raw)) (unknown id raw w g)
      (elim (Option-cases (chan norm w.st)) [
        | inl n ↦ rw n (join_new-IsFine id norm raw w (norm_nick_idem raw) n g)
        | inr (c, n) ↦ rw n (join_existing-IsFine id norm given w (norm_nick_idem raw) g)
      ])

join_each-IsFine :
    (id i : ℕ) (keys : Option (List Text)) (list : List Text) (w : World)
    → IsFine id w
    → IsFine id (join_each id i keys list w)
unfolding join_each
join_each-IsFine id i keys [] w g = g
join_each-IsFine id i keys (raw ∷ rest) w g =
    join_each-IsFine id (i + 1) keys rest _ (join_one-IsFine id raw _ w g)

-- A JOIN by a user who is there, whatever its channels and keys, leaves the user there, every user's list
-- of channels in step with the channels' members, and no channel twice in the table.
pub handle_join-IsFine :
    (id : ℕ) (args : List Text) (w : World) → IsFine id w → IsFine id (handle_join id args w)
unfolding handle_join deliver_need_more_params
handle_join-IsFine id [] w g = search (told, g)
handle_join-IsFine id (list ∷ more) w g = search (join_each-IsFine, g)
