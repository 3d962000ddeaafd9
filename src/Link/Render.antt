-- ===== src/Link/Render.antt =====
-- src/link.rs: the lines of a burst that introduce users and channels.
use chonkline.Base.{ℕ, List, [], ◌∷◌, ◌++◌, map, Text, codes, text_eq}
use chonkline.Str.Split.{join}
use chonkline.Str.Decimal.{to_decimal}

-- `uid_line`, which introduces a user to the network
unfoldable pub uid_line :
    (sid uuid : Text) (nick_ts : ℕ) (nick real_host display_host ident ip : Text) (signon_ts : ℕ)
    (modes realname : Text)
    → Text
uid_line sid uuid nick_ts nick real_host display_host ident ip signon_ts modes realname =
    b':'
    ∷ join (b' ' ∷ []) (
        sid
        ∷ codes "UID"
        ∷ uuid
        ∷ to_decimal nick_ts
        ∷ nick
        ∷ real_host
        ∷ display_host
        ∷ ident
        ∷ ip
        ∷ to_decimal signon_ts
        ∷ modes
        ∷ (b':' ∷ realname)
        ∷ [])

abbrev pub member_entry : Text × Text → Text
member_entry (prefixes, uuid) = prefixes ++ b',' ∷ uuid

abbrev pub member_list : List (Text × Text) → Text
member_list members = join (b' ' ∷ []) (map member_entry members)

abbrev params_suffix : List Text → Text
params_suffix [] = []
params_suffix (p ∷ ps) = b' ' ∷ join (b' ' ∷ []) (p ∷ ps)

unfoldable pub fjoin_line_with_params :
    Text → Text → ℕ → Text → List Text → List (Text × Text) → Text
fjoin_line_with_params sid chan ts modes mode_params members =
    b':' ∷ join (b' ' ∷ []) (sid ∷ codes "FJOIN" ∷ chan ∷ to_decimal ts ∷ modes ∷ [])
    ++ (params_suffix mode_params ++ (codes " :" ++ member_list members))

unfoldable pub fjoin_line : Text → Text → ℕ → Text → List (Text × Text) → Text
fjoin_line sid chan ts modes members = fjoin_line_with_params sid chan ts modes [] members
