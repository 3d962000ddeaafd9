-- ===== src/Link/Examples.antt =====
-- src/link.rs: links at concrete lines.
use chonkline.Base.{◌≡◌, ◌≤◌, refl, true, false, none, some, List, [], ◌∷◌, Text, codes, text_beq}
use chonkline.Str.{
  strip_prefix, byte_len, utf8_len, is_ascii_whitespace, is_ascii_alphabetic, to_ascii_uppercase,
  is_ascii_digit, is_ascii_uppercase,
}
use chonkline.Str.Split.{onto}
use chonkline.Proto.{
  Command, parse, parse_message, strip_tags, strip_source, take_word, drop_word, params_of,
  in_param,
}
use chonkline.Network.{valid_sid, valid_uid, valid_uuid}
use chonkline.Link.{LinkConfig, LinkSession, dead, linked, new, begin, parse_members}
use chonkline.Link.Dispatch.{handle_line, verb_of}
use chonkline.Link.Render.{member_list}
use chonkline.Link.Induction.{run}
use chonkline.Link.Members.{parse_members-member_list}
use chonkline.Link.Lifecycle.{run-server_lines, registered, server_lines}
use chonkline.Link.Security.{
  handle_line-Earned, Earned, Refused, run-Refused, handle_line-any_phase,
}

abbrev our_config : LinkConfig
our_config = record {
  sid = codes "9CH";
  name = codes "chonk.test";
  desc = codes "us";
  send_password = codes "out";
  recv_password = codes "in";
}

-- we opened the link
abbrev opened : LinkSession
opened = begin (new our_config true)

abbrev wrong_line : Text
wrong_line = codes "SERVER insp.test bad 0 1IN :them"

abbrev wrong_server : Command
wrong_server = record {
  prefix = none;
  name = codes "SERVER";
  params = codes "insp.test" ∷ codes "bad" ∷ codes "0" ∷ codes "1IN" ∷ codes "them" ∷ [];
  tags = [];
}

wrong_line-parsed : parse wrong_line ≡ some wrong_server
unfolding parse byte_len utf8_len strip_tags parse_message take_word strip_source params_of in_param
    drop_word is_ascii_whitespace is_ascii_alphabetic to_ascii_uppercase onto
wrong_line-parsed = refl

abbrev uuid_here : Text
uuid_here = codes "1INAAAAAB"

abbrev quit_line : Text
quit_line = codes ":1INAAAAAB QUIT :bye"

abbrev quit_command : Command
quit_command = record {
  prefix = some uuid_here;
  name = codes "QUIT";
  params = codes "bye" ∷ [];
  tags = [];
}

quit_line-parsed : parse quit_line ≡ some quit_command
unfolding parse byte_len utf8_len strip_tags parse_message take_word strip_source params_of in_param
    drop_word is_ascii_whitespace is_ascii_alphabetic to_ascii_uppercase onto
quit_line-parsed = refl

abbrev linked_session : LinkSession
linked_session = record (new our_config true) { phase = linked; peer_sid = some (codes "1IN") }

abbrev dead_session : LinkSession
dead_session = record (new our_config true) { phase = dead }

abbrev fresh : LinkSession
fresh = new our_config false

handle_line-Earned_example : Earned wrong_server fresh (handle_line wrong_line fresh)
unfolding strip_prefix
handle_line-Earned_example =
    handle_line-Earned wrong_line fresh wrong_server (λ e. cc) refl wrong_line-parsed

run-Refused_example : Refused fresh (run (wrong_line ∷ quit_line ∷ []) fresh)
unfolding strip_prefix verb_of text_beq
run-Refused_example =
    run-Refused wrong_line (quit_line ∷ []) fresh wrong_server (λ e. cc) refl wrong_line-parsed refl
      refl (λ e. cc)

handle_line-any_phase_example :
    (handle_line quit_line fresh).1 ≡ (handle_line quit_line linked_session).1
unfolding strip_prefix verb_of text_beq
handle_line-any_phase_example =
    handle_line-any_phase quit_line fresh linked_session quit_command (λ e. cc) (λ e. cc) refl
      quit_line-parsed refl

abbrev two_members : List (Text × Text)
two_members = (codes "o", uuid_here) ∷ ([], codes "1INAAAAAC") ∷ []

parse_members-member_list_example : parse_members (member_list two_members) ≡ two_members
unfolding valid_uuid valid_sid valid_uid is_ascii_digit is_ascii_uppercase
parse_members-member_list_example = parse_members-member_list two_members (
  record { no_blank = (λ e. cc, tt); no_comma = (λ e. cc, tt); uuid_valid = refl },
  (record { no_blank = tt; no_comma = tt; uuid_valid = refl }, tt),
)

run-server_lines_example :
    (server_lines (run (quit_line ∷ []) (begin (new our_config true))).0.out ≤ 1)
    × (registered (run (quit_line ∷ []) (begin (new our_config true))).0.phase ≡ true
        → server_lines (run (quit_line ∷ []) (begin (new our_config true))).0.out ≡ 1)
run-server_lines_example = run-server_lines our_config true (quit_line ∷ [])

sent_members : Text
sent_members = codes "o,1INAAAAAB:4 ,bad"
