-- ===== src/Accounts/Examples.antt =====
-- src/accounts.rs at concrete stores.
use chonkline.Base.{
  ◌≡◌, refl, true, false, none, some, [], ◌∷◌, ◌++◌, replicate, Text, codes, lookup, insert,
  contains_key, text_beq, text_eq,
}
use chonkline.Bans.{Disk}
use chonkline.Str.Split.{lines}
use chonkline.Str.Decimal.{parse_uint}
use chonkline.Str.Utf8.{as_bytes}
use chonkline.Crypto.Base64.{base64_decode, decode_loop, b64_val}
use chonkline.Str.{
  is_ascii_whitespace, byte_len, is_whitespace, is_ascii_hexdigit, to_ascii_lowercase,
}
use chonkline.State.Casemap.{norm_nick, norm_char, fold_bracket}
use chonkline.Accounts.{
  AccountStore, normalize_cert_fingerprint, certs_from, register, parse_line, account_of_fields,
  load, load_lines, bind_certs,
}
use chonkline.Accounts.Certs.{add_cert, remove_cert}
use chonkline.Accounts.Links.{IsLinked, has_cert}
use chonkline.Accounts.Failures.{Undone, add_cert-Undone, remove_cert-Undone}
use chonkline.Accounts.Reach.{Reached, empty, enrolls, registers, reached-IsLinked}
use chonkline.Accounts.Verify.{Answers, register-Answers}

abbrev disk : Disk
disk = record { content = none; writable = true }

abbrev full : Disk
full = record { content = none; writable = false }

abbrev start : AccountStore
start = record { path = some (codes "accounts"); map = []; by_cert = [] }

abbrev print : Text
print = replicate 64 b'a'

normalizes_colons : normalize_cert_fingerprint (codes "AA:AA" ++ replicate 60 b'a') ≡ some print
unfolding normalize_cert_fingerprint byte_len is_whitespace is_ascii_hexdigit to_ascii_lowercase
normalizes_colons = refl

abbrev one_account : AccountStore × Disk
one_account = (register (codes "Alice") (codes "secret") (7 ∷ []) (start, disk)).0

abbrev enrolled_account : AccountStore × Disk
enrolled_account = (add_cert (codes "alice") print one_account).0

enrolled_Reached : Reached enrolled_account
enrolled_Reached =
    enrolls (codes "alice") print
      (registers (codes "Alice") (codes "secret") (7 ∷ []) (empty (some (codes "accounts")) disk))

reached-IsLinked_example : IsLinked enrolled_account.0
reached-IsLinked_example = reached-IsLinked enrolled_Reached

add_cert-Undone_example :
    Undone one_account.0 (add_cert (codes "alice") print (one_account.0, full))
add_cert-Undone_example = add_cert-Undone (codes "alice") print one_account.0 full (
    reached-IsLinked
      (registers (codes "Alice") (codes "secret") (7 ∷ []) (empty (some (codes "accounts")) disk)))

remove_cert-Undone_example :
    Undone enrolled_account.0 (remove_cert (codes "alice") print (enrolled_account.0, full))
remove_cert-Undone_example =
    remove_cert-Undone (codes "alice") print enrolled_account.0 full
      (reached-IsLinked enrolled_Reached)

register-Answers_example :
    Answers
      (codes "Alice")
      (codes "secret")
      (7 ∷ [])
      start
      (register (codes "Alice") (codes "secret") (7 ∷ []) (start, disk))
register-Answers_example = register-Answers (codes "Alice") (codes "secret") (7 ∷ []) start disk

-- A later line of the same name takes the account over, and the fingerprint of the earlier line stays bound
-- to a name that does not list it.
loads_stale_print :
    let s =
      load
        (some (codes "accounts"))
        (some (codes "alice\t1\tAA==\tAA==\t" ++ (print ++ codes "\nAlice\t1\tAA==\tAA==\n"))) in
    (lookup print s.by_cert ≡ some (codes "alice"))
    × (has_cert print (lookup (codes "alice") s.map) ≡ false)
unfolding load load_lines bind_certs parse_line account_of_fields certs_from
    normalize_cert_fingerprint byte_len is_whitespace is_ascii_hexdigit to_ascii_lowercase norm_nick
    insert lookup lines parse_uint base64_decode decode_loop as_bytes is_ascii_whitespace b64_val
    contains_key text_beq norm_char fold_bracket
loads_stale_print = (refl, refl)
