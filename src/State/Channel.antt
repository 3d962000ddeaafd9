-- ===== src/State/Channel.antt =====
-- src/state.rs: the channel record and every operation on it. Letters are code points; the clock
-- reading of a new channel is an argument.
pub mod Edits
pub mod Flags
pub mod Members
pub mod Reach
pub mod Masks
mod Examples
use chonkline.Base.{
  ℕ, zero, suc, Bool, true, false, not, ◌&&◌, ◌||◌, Option, none, some, List, [], ◌∷◌, ◌++◌, map,
  length, retain, any, find, nat_beq, ltb, if◌then◌else◌, Text, text_eq, nat_eq, ◌==◌, contains,
}
use chonkline.Str.Decimal.{to_decimal}
use chonkline.State.Casemap.{norm_nick}
use chonkline.State.Sets.{set_insert, set_remove, map_insert, map_remove}
use chonkline.State.Client.{Cx, matches_ban, letter_if}

-- an `i32` by its sign
pub data ℤ : Type 0 where
  pos : ℕ → ℤ
  negsuc : ℕ → ℤ

-- `max(0)`
abbrev pub max_zero : ℤ → ℕ
max_zero (pos n) = n
max_zero (negsuc n) = 0

-- `key_limit` is never negative: every assignment takes the maximum with 0
pub record Chn : Type 0 where
  pub display : Text
  pub topic : Text
  pub topic_setter : Text
  pub topic_time : ℕ
  pub created_at : ℕ
  pub invite_only : Bool
  pub nomsg : Bool
  pub private : Bool
  pub secret : Bool
  pub op_topic : Bool
  pub moderated : Bool
  pub regonly : Bool
  pub key_limit : ℕ
  pub chan_key : Option Text
  pub bans : List Text
  pub excepts : List Text
  pub invex : List Text
  pub invites : List ℕ
  pub foreign_modes : List (ℕ × Option Text)
  pub ops : List ℕ
  pub voices : List ℕ
  pub members : List ℕ

abbrev pub new : Text → ℕ → Chn
new display now = record {
  display = display;
  topic = [];
  topic_setter = [];
  topic_time = 0;
  created_at = now;
  invite_only = false;
  nomsg = false;
  private = false;
  secret = false;
  op_topic = false;
  moderated = false;
  regonly = false;
  key_limit = 0;
  chan_key = none;
  bans = [];
  excepts = [];
  invex = [];
  invites = [];
  foreign_modes = [];
  ops = [];
  voices = [];
  members = [];
}

unfoldable pub is_member : ℕ → Chn → Bool
is_member cx_id c = contains cx_id c.members

unfoldable pub is_op : ℕ → Chn → Bool
is_op cx_id c = contains cx_id c.ops

unfoldable pub is_voiced : ℕ → Chn → Bool
is_voiced cx_id c = contains cx_id c.voices

unfoldable pub marker : ℕ → Chn → Text
marker cx_id c =
    if contains cx_id c.ops then b'@' ∷ [] else if contains cx_id c.voices then b'+' ∷ [] else []

unfoldable pub all_markers : ℕ → Chn → Text
all_markers cx_id c =
    letter_if (contains cx_id c.ops) b'@' ++ letter_if (contains cx_id c.voices) b'+'

unfoldable pub ban_match : Cx → Chn → Option Text
ban_match target c = find (λ b. matches_ban b target) c.bans

abbrev flags_of : List (ℕ × Option Text) → Text
flags_of [] = []
flags_of ((ch, p) ∷ m) = ch ∷ flags_of m

abbrev param_if : Option Text → List Text → List Text
param_if none ps = ps
param_if (some v) ps = v ∷ ps

abbrev params_of : List (ℕ × Option Text) → List Text
params_of [] = []
params_of ((ch, p) ∷ m) = param_if p (params_of m)

unfoldable pub foreign_mode_parts : Chn → Text × List Text
foreign_mode_parts c = (flags_of c.foreign_modes, params_of c.foreign_modes)

abbrev pub has_key : Option Text → Bool
has_key none = false
has_key (some k) = true

-- the limit is a parameter where there is one
abbrev pub limit_param : ℕ → List Text
limit_param zero = []
limit_param (suc n) = to_decimal (suc n) ∷ []

unfoldable pub burst_mode_parts : Chn → Text × List Text
burst_mode_parts c =
    let (foreign_flags, foreign_params) = foreign_mode_parts c in
    (
      b'+' ∷ letter_if c.invite_only b'i'
          ++ (letter_if c.nomsg b'n'
              ++ (letter_if c.private b'p'
                  ++ (letter_if c.secret b's'
                      ++ (letter_if c.op_topic b't'
                          ++ (letter_if c.moderated b'm'
                              ++ (letter_if c.regonly b'R'
                                  ++ (letter_if (has_key c.chan_key) b'k'
                                      ++ (letter_if (ltb 0 c.key_limit) b'l'
                                          ++ foreign_flags)))))))),
      param_if c.chan_key (limit_param c.key_limit ++ foreign_params),
    )

abbrev pub nonempty : Option Text → Option Text
nonempty none = none
nonempty (some []) = none
nonempty (some (x ∷ k)) = some (x ∷ k)

unfoldable pub set_key_opt : Option Text → Chn → Chn
set_key_opt k c = record c { chan_key = nonempty k }

unfoldable pub set_limit_value : ℤ → Chn → Chn
set_limit_value n c = record c { key_limit = max_zero n }

unfoldable pub set_member_prefix : ℕ → ℕ → Bool → Chn → Chn
set_member_prefix ch cx_id on c =
    let change : List ℕ → List ℕ = if on then set_insert cx_id else set_remove cx_id in
    if nat_beq ch b'o'
    then record c { ops = change c.ops }
    else record c { voices = change c.voices }

unfoldable pub set_foreign_mode : ℕ → Option Text → Bool → Chn → Chn
set_foreign_mode ch param on c = record c {
  foreign_modes = if on then map_insert ch param c.foreign_modes else map_remove ch c.foreign_modes;
}

unfoldable pub clear_all_modes : Chn → Chn
clear_all_modes c = record c {
  invite_only = false;
  nomsg = false;
  private = false;
  secret = false;
  op_topic = false;
  moderated = false;
  regonly = false;
  key_limit = 0;
  chan_key = none;
  bans = [];
  excepts = [];
  invex = [];
  ops = [];
  voices = [];
  foreign_modes = [];
}
