-- ===== src/State/Channel/Examples.antt =====
-- src/state.rs: a channel with an operator and a ban.
use chonkline.Base.{
  ℕ, arith, ◌≡◌, refl, true, false, none, [], ◌∷◌, codes, contains, nat_eq, text_eq,
}
use chonkline.Str.{to_ascii_lowercase}
use chonkline.Glob.{glob_match, glob_loop, skip_stars}
use chonkline.State.Casemap.{norm_nick, norm_char, fold_bracket, wildcard_match}
use chonkline.State.Client.{Cx, no_caps, matches_ban}
use chonkline.State.Channel.{Chn, new}
use chonkline.State.Channel.Edits.{eject, admit_as_op, admit_plain}
use chonkline.State.Channel.Members.{IsPrivileged, Ejected, eject-Ejected}
use chonkline.State.Channel.Reach.{reached-IsPrivileged, create, join, join_as_op}

abbrev troll : Cx
troll = record {
  id = 3;
  nick = codes "Troll";
  nick_key = codes "troll";
  user = codes "t";
  host = codes "h";
  real_host = codes "h";
  realname = codes "T";
  registered = true;
  account = none;
  caps = no_caps;
  sasl_mech = none;
  cert_fp = none;
  pending_nick = none;
  pending_user = none;
  cap_negotiating = false;
  cap_gated_welcome = false;
  batch_seq = 0;
  reg_challenged = false;
  reg_verified = false;
  away = none;
  invis = false;
  wallop = false;
  srvnotice = false;
  oper = false;
  bot = false;
  chans = [];
}

abbrev room : Chn
room = record (new (codes "#Room") 0) { ops = 1 ∷ []; members = 1 ∷ 3 ∷ [] }

one_of : (id : ℕ) → contains id (1 ∷ []) ≡ true → contains id (1 ∷ 3 ∷ []) ≡ true
one_of id h = ground arith

room-IsPrivileged : IsPrivileged room
room-IsPrivileged = record { ops_in = one_of; voices_in = λ id h. cc }

eject-Ejected_example : Ejected 1 room (eject 1 room)
eject-Ejected_example = eject-Ejected 1 room room-IsPrivileged

troll-matched : matches_ban (codes "TR*") troll ≡ true
unfolding matches_ban norm_nick norm_char fold_bracket to_ascii_lowercase wildcard_match glob_match
    glob_loop skip_stars
troll-matched = refl

reached-IsPrivileged_example : IsPrivileged (admit_plain 3 (admit_as_op 1 (new (codes "#Room") 0)))
reached-IsPrivileged_example =
    reached-IsPrivileged (admit_plain 3 (admit_as_op 1 (new (codes "#Room") 0)))
      (join 3 (join_as_op 1 (create (codes "#Room") 0)))
