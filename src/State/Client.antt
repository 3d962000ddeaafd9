-- ===== src/State/Client.antt =====
-- src/state.rs: the client record, as far as it decides: identity, modes and capabilities. Its reply
-- queue, its clock readings and its close notification are not part of it.
use chonkline.Base.{
  ℕ, Bool, true, false, ◌||◌, Option, List, [], ◌∷◌, ◌++◌, Text, codes, if◌then◌else◌, contains,
  text_eq, retain, not, nat_eq, ◌==◌,
}
use chonkline.Str.Split.{join}
use chonkline.State.Casemap.{norm_nick, wildcard_match}

pub record Caps : Type 0 where
  pub server_time : Bool
  pub away_notify : Bool
  pub extended_join : Bool
  pub account_notify : Bool
  pub multi_prefix : Bool
  pub userhost_in_names : Bool
  pub chghost : Bool
  pub cap_notify : Bool
  pub sasl : Bool
  pub message_tags : Bool
  pub account_tag : Bool
  pub batch : Bool
  pub labeled_response : Bool

-- the name where the flag is set
abbrev pub name_if : Bool → Text → List Text
name_if true name = name ∷ []
name_if false name = []

unfoldable pub enabled_list : Caps → Text
enabled_list c = join (b' ' ∷ []) (
    name_if c.server_time (codes "server-time")
    ++ (name_if c.away_notify (codes "away-notify")
        ++ (name_if c.extended_join (codes "extended-join")
            ++ (name_if c.account_notify (codes "account-notify")
                ++ (name_if c.multi_prefix (codes "multi-prefix")
                    ++ (name_if c.userhost_in_names (codes "userhost-in-names")
                        ++ (name_if c.chghost (codes "chghost")
                            ++ (name_if c.cap_notify (codes "cap-notify")
                                ++ (name_if c.sasl (codes "sasl")
                                    ++ (name_if c.message_tags (codes "message-tags")
                                        ++ (name_if c.account_tag (codes "account-tag")
                                            ++ (name_if c.batch (codes "batch")
                                                ++ name_if c.labeled_response
                                                    (codes "labeled-response")))))))))))))

pub record Cx : Type 0 where
  pub id : ℕ
  pub nick : Text
  pub nick_key : Text
  pub user : Text
  pub host : Text
  pub real_host : Text
  pub realname : Text
  pub registered : Bool
  pub account : Option Text
  pub caps : Caps
  pub sasl_mech : Option Text
  pub cert_fp : Option Text
  pub pending_nick : Option Text
  pub pending_user : Option Text
  pub cap_negotiating : Bool
  pub cap_gated_welcome : Bool
  pub batch_seq : ℕ
  pub reg_challenged : Bool
  pub reg_verified : Bool
  pub away : Option Text
  pub invis : Bool
  pub wallop : Bool
  pub srvnotice : Bool
  pub oper : Bool
  pub bot : Bool
  pub chans : List Text

unfoldable pub prefix : Cx → Text
prefix c = b':' ∷ c.nick ++ (b'!' ∷ c.user ++ b'@' ∷ c.host)

-- the letter where the mode is set
abbrev pub letter_if : Bool → ℕ → Text
letter_if true c = c ∷ []
letter_if false c = []

unfoldable pub user_mode_string : Cx → Text
user_mode_string c =
    b'+' ∷ letter_if c.invis b'i'
    ++ (letter_if c.srvnotice b's'
        ++ (letter_if c.wallop b'w' ++ (letter_if c.oper b'o' ++ letter_if c.bot b'B')))

abbrev pub or_normal : List Text → Text
or_normal [] = codes "normal user"
or_normal (p ∷ parts) = join (codes ", ") (p ∷ parts)

unfoldable pub user_mode_text : Cx → Text
user_mode_text c = or_normal (
    name_if c.invis (codes "invisible")
    ++ (name_if c.wallop (codes "wallops")
        ++ (name_if c.srvnotice (codes "server notices")
            ++ (name_if c.oper (codes "IRC operator") ++ name_if c.bot (codes "bot")))))

unfoldable pub composite_key : Cx → Text
composite_key c = c.nick_key ++ b'!' ∷ (norm_nick c.user ++ b'@' ∷ norm_nick c.host)

unfoldable pub matches_ban : Text → Cx → Bool
matches_ban mask c =
    let m = norm_nick mask in
    if contains b'!' m || contains b'@' m
    then wildcard_match m (composite_key c)
    else wildcard_match m c.nick_key

abbrev pub no_caps : Caps
no_caps = record {
  server_time = false;
  away_notify = false;
  extended_join = false;
  account_notify = false;
  multi_prefix = false;
  userhost_in_names = false;
  chghost = false;
  cap_notify = false;
  sasl = false;
  message_tags = false;
  account_tag = false;
  batch = false;
  labeled_response = false;
}

-- `BTreeSet<String>` as a list without repetition
unfoldable pub text_insert : Text → List Text → List Text
text_insert x xs = if contains x xs then xs else xs ++ x ∷ []

unfoldable pub text_remove : Text → List Text → List Text
text_remove x xs = retain (λ y. not (y == x)) xs
