-- ===== src/Cmds/Join.antt =====
-- src/cmds.rs: JOIN.
use chonkline.Base.{
  ℕ, ◌+◌, Bool, true, false, not, ◌&&◌, Option, none, some, List, [], ◌∷◌, ◌++◌, leb, ◌==◌,
  if◌then◌else◌, Text, text_eq, codes, get_elem?,
}
use chonkline.Str.Split.{split}
use chonkline.Proto.{line}
use chonkline.State.Casemap.{norm_nick}
use chonkline.State.Client.{Cx}
use chonkline.State.Channel.{Chn, is_member, is_op, ban_match}
use chonkline.State.Channel.Edits.{
  admit_as_op, admit_plain, consume_invite, invited, invex_match, except_match, grant,
}
use chonkline.State.Server.{
  ServerState, find_by_id, change_by_id, chan, change_chan, chan_or_create,
}
use chonkline.Channels
use chonkline.Channels.{is_registered, is_founder}
use chonkline.Cmds.{
  World, numeric, relay_all, deliver_need_more_params, deliver_nosuch_channel,
  deliver_too_many_channels, deliver_join_denied, prefix_of, listed, text_or,
}
use chonkline.Cmds.Announce.{
  max_channels, valid_channel, on_state, note_channel, channels_of, members_at, relay_join_to_links,
  broadcast_join, joiner_replies,
}

-- the account of the joiner founded the channel, and is not its operator yet
abbrev pub founder_here : ℕ → Text → World → Cx → Chn → Bool
founder_here id key w u c = elim u.account [
  | none ↦ false
  | some account ↦ is_founder key account w.chanreg && not (is_op id c)
]

unfoldable pub apply_founder_status : ℕ → Text → World → World
apply_founder_status id key w = elim (find_by_id id w.st) [
  | none ↦ w
  | some u ↦ elim (chan key w.st) [
    | none ↦ w
    | some c ↦
        let opped = on_state (change_chan key (grant id true)) w in
        let mode =
          line (codes ":ChanServ!services@" ++ w.st.name) (codes "MODE")
            (c.display ++ (codes " +o " ++ u.nick)) in
        let told = relay_all (members_at key opped.st) mode opped in
        if founder_here id key w u c then told else w
  ]
]

abbrev pub is_set {ℓ} : {A : Type ℓ} → Option A → Bool
is_set none = false
is_set (some a) = true

abbrev pub invex_ok : Option Cx → Chn → Bool
invex_ok none c = false
invex_ok (some u) c = invex_match u c

abbrev pub unidentified : Option Cx → Bool
unidentified none = false
unidentified (some u) = not (is_set u.account)

abbrev pub banned : Option Cx → Chn → Bool
banned none c = false
banned (some u) c = is_set (ban_match u c) && not (except_match u c)

abbrev pub wrong_key : Option Text → Text → Bool
wrong_key none given = false
wrong_key (some key) given = not (norm_nick given == key)

-- what `join_existing` makes of a request
pub data Verdict : Type 0 where
  invite_only : Verdict
  needs_account : Verdict
  is_banned : Verdict
  bad_key : Verdict
  is_there : Verdict
  too_many : Verdict
  admitted : Verdict

unfoldable pub verdict : ℕ → Text → Option Cx → Chn → Verdict
verdict id given u c =
    if c.invite_only && not (invited id c) && not (invex_ok u c)
    then invite_only
    else if c.regonly && unidentified u
    then needs_account
    else if banned u c
    then is_banned
    else if wrong_key c.chan_key given
    then bad_key
    else if is_member id c
    then is_there
    else if leb max_channels (channels_of u)
    then too_many
    else admitted

-- the joiner in the channel's tables and the channel in the joiner's
abbrev pub enter : ℕ → Text → ServerState → ServerState
enter id norm st =
    change_chan norm (λ c. consume_invite id (admit_plain id c))
      (change_by_id id (note_channel norm) st)

abbrev pub admit : ℕ → Text → Chn → World → World
admit id norm c w =
    let from = prefix_of id w.st in
    let w1 = relay_join_to_links id norm c.display (on_state (enter id norm) w) in
    let w2 = broadcast_join id (members_at norm w1.st) from c.display w1 in
    apply_founder_status id norm (joiner_replies id c.display w2)

abbrev pub answer_join : Verdict → ℕ → Text → Chn → World → World
answer_join invite_only id norm c w = deliver_join_denied id 473 c.display w
answer_join needs_account id norm c w =
    numeric id (codes "477")
      (c.display ∷ codes "You must be identified to a registered account to join this channel" ∷ [])
      w
answer_join is_banned id norm c w = deliver_join_denied id 474 c.display w
answer_join bad_key id norm c w = deliver_join_denied id 475 c.display w
answer_join is_there id norm c w = w
answer_join too_many id norm c w = deliver_too_many_channels id c.display w
answer_join admitted id norm c w = admit id norm c w

unfoldable pub join_existing : ℕ → Text → Text → World → World
join_existing id norm given w = elim (chan norm w.st) [
  | none ↦ w
  | some c ↦ answer_join (verdict id given (find_by_id id w.st) c) id norm c w
]

-- the first member of a channel: its operator, unless the channel is registered
abbrev pub first_member : Bool → ℕ → Chn → Chn
first_member true id c = admit_plain id c
first_member false id c = admit_as_op id c

abbrev pub topic_kept : Text → World → Text
topic_kept norm w = elim (Channels.get norm w.chanreg) [ none ↦ [] | some r ↦ r.topic ]

abbrev pub with_topic : Text → Chn → Chn
with_topic [] c = c
with_topic (x ∷ topic) c = record c { topic = x ∷ topic }

abbrev pub founded : Bool → Text → ℕ → Chn → Chn
founded registered topic id c = with_topic topic (first_member registered id c)

abbrev pub create : ℕ → Text → Text → World → ServerState
create id norm display w =
    let registered = is_registered norm w.chanreg in
    let topic = if registered then topic_kept norm w else [] in
    change_by_id id (note_channel norm)
      (change_chan norm (founded registered topic id) (chan_or_create norm display w.now w.st))

unfoldable pub join_new : ℕ → Text → Text → World → World
unfolding relay_join_to_links joiner_replies apply_founder_status
join_new id norm display w =
    let w1 = relay_join_to_links id norm display (record w { st = create id norm display w }) in
    let w2 = joiner_replies id display w1 in
    let w3 = apply_founder_status id norm w2 in
    if leb max_channels (channels_of (find_by_id id w.st))
    then deliver_too_many_channels id display w
    else if is_registered norm w.chanreg
    then w3
    else w2

unfoldable pub join_one : ℕ → Text → Text → World → World
unfolding join_existing join_new valid_channel
join_one id raw given w =
    let norm = norm_nick raw in
    if not (valid_channel raw)
    then deliver_nosuch_channel id raw w
    else if is_set (chan norm w.st)
    then join_existing id norm given w
    else join_new id norm raw w

abbrev key_at : Option (List Text) → ℕ → Text
key_at none i = []
key_at (some keys) i = text_or [] (get_elem? keys i)

-- the channels from number `i` on
unfoldable pub join_each : ℕ → ℕ → Option (List Text) → List Text → World → World
unfolding join_one
join_each id i keys [] w = w
join_each id i keys (raw ∷ rest) w =
    join_each id (i + 1) keys rest (join_one id raw (key_at keys i) w)

abbrev keys_of : List Text → Option (List Text)
keys_of (list ∷ keys ∷ more) = some (split b',' keys)
keys_of _ = none

unfoldable pub handle_join : ℕ → List Text → World → World
unfolding join_each
handle_join id [] w = deliver_need_more_params id (codes "JOIN") w
handle_join id (list ∷ more) w = join_each id 0 (keys_of (list ∷ more)) (listed list) w
