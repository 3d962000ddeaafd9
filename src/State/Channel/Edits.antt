-- ===== src/State/Channel/Edits.antt =====
-- src/state.rs: the mutators of a channel that the MODE handler and joins use, and its mode string.
use chonkline.Base.{
  ℕ, Bool, false, not, Option, none, some, List, [], ◌∷◌, ◌++◌, length, retain, any, nat_beq, ltb,
  if◌then◌else◌, Text, text_eq, nat_eq, ◌==◌, contains, map,
}
use chonkline.State.Casemap.{norm_nick}
use chonkline.State.Sets.{set_insert, set_remove}
use chonkline.State.Client.{Cx, matches_ban, letter_if}
use chonkline.State.Channel.{Chn, nonempty, has_key}

unfoldable pub set_flag : ℕ → Bool → Chn → Chn
set_flag ch on c =
    if nat_beq ch b'i'
    then record c { invite_only = on }
    else if nat_beq ch b'n'
    then record c { nomsg = on }
    else if nat_beq ch b'p'
    then record c { private = on }
    else if nat_beq ch b's'
    then record c { secret = on }
    else if nat_beq ch b't'
    then record c { op_topic = on }
    else if nat_beq ch b'R'
    then record c { regonly = on }
    else if nat_beq ch b'm'
    then record c { moderated = on }
    else c

unfoldable pub flag_is_set : ℕ → Chn → Bool
flag_is_set ch c =
    if nat_beq ch b'i'
    then c.invite_only
    else if nat_beq ch b'n'
    then c.nomsg
    else if nat_beq ch b'p'
    then c.private
    else if nat_beq ch b's'
    then c.secret
    else if nat_beq ch b't'
    then c.op_topic
    else if nat_beq ch b'm'
    then c.moderated
    else false

unfoldable pub set_channel_key : Text → Chn → Chn
set_channel_key key c = record c { chan_key = nonempty (some (norm_nick key)) }

-- the shape that the three mask lists share
unfoldable pub add_mask : Text → List Text → List Text
add_mask mask masks = let m = norm_nick mask in if contains m masks then masks else masks ++ m ∷ []

unfoldable pub remove_mask : Text → List Text → List Text
remove_mask mask masks = retain (λ b. not (b == norm_nick mask)) masks

unfoldable pub add_ban : Text → Chn → Chn
add_ban mask c = record c { bans = add_mask mask c.bans }

unfoldable pub remove_ban : Text → Chn → Chn × Bool
remove_ban mask c =
    let bans = remove_mask mask c.bans in
    (record c { bans = bans }, ltb (length bans) (length c.bans))

unfoldable pub add_except : Text → Chn → Chn
add_except mask c = record c { excepts = add_mask mask c.excepts }

unfoldable pub remove_except : Text → Chn → Chn × Bool
remove_except mask c =
    let excepts = remove_mask mask c.excepts in
    (record c { excepts = excepts }, ltb (length excepts) (length c.excepts))

unfoldable pub except_match : Cx → Chn → Bool
except_match target c = any (λ m. matches_ban m target) c.excepts

unfoldable pub add_invex : Text → Chn → Chn
add_invex mask c = record c { invex = add_mask mask c.invex }

unfoldable pub remove_invex : Text → Chn → Chn × Bool
remove_invex mask c =
    let invex = remove_mask mask c.invex in
    (record c { invex = invex }, ltb (length invex) (length c.invex))

unfoldable pub invex_match : Cx → Chn → Bool
invex_match target c = any (λ m. matches_ban m target) c.invex

unfoldable pub invite : ℕ → Chn → Chn
invite cx_id c = record c { invites = set_insert cx_id c.invites }

unfoldable pub invited : ℕ → Chn → Bool
invited cx_id c = contains cx_id c.invites

unfoldable pub consume_invite : ℕ → Chn → Chn
consume_invite cx_id c = record c { invites = set_remove cx_id c.invites }

unfoldable pub mode_string : Chn → Text
mode_string c =
    b'+' ∷ letter_if c.invite_only b'i'
    ++ (letter_if c.nomsg b'n'
        ++ (letter_if c.private b'p'
            ++ (letter_if c.secret b's'
                ++ (letter_if c.op_topic b't'
                    ++ (letter_if c.moderated b'm'
                        ++ (letter_if c.regonly b'R'
                            ++ (letter_if (has_key c.chan_key) b'k'
                                ++ (letter_if (ltb 0 c.key_limit) b'l'
                                    ++ map (λ m. m.0) c.foreign_modes))))))))

unfoldable pub grant : ℕ → Bool → Chn → Chn
grant cx_id op c =
    if op
    then record c { ops = set_insert cx_id c.ops }
    else record c { voices = set_insert cx_id c.voices }

unfoldable pub revoke_op : ℕ → Chn → Chn × Bool
revoke_op cx_id c = (record c { ops = set_remove cx_id c.ops }, contains cx_id c.ops)

unfoldable pub revoke_voice : ℕ → Chn → Chn × Bool
revoke_voice cx_id c = (record c { voices = set_remove cx_id c.voices }, contains cx_id c.voices)

abbrev pub other_id : ℕ → ℕ → Bool
other_id cx_id id = not (nat_beq id cx_id)

unfoldable pub eject : ℕ → Chn → Chn × Option Bool
eject cx_id c = if not (contains cx_id c.members) then (c, none) else (
  record c {
    members = set_remove cx_id c.members;
    ops = set_remove cx_id c.ops;
    voices = set_remove cx_id c.voices;
  },
  some (any (other_id cx_id) c.ops),
)

unfoldable pub admit_as_op : ℕ → Chn → Chn
admit_as_op cx_id c = record c {
  members = set_insert cx_id c.members;
  ops = set_insert cx_id c.ops;
}

unfoldable pub admit_plain : ℕ → Chn → Chn
admit_plain cx_id c = record c { members = set_insert cx_id c.members }

unfoldable pub member_count : Chn → ℕ
member_count c = length c.members
