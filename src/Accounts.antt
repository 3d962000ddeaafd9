-- ===== src/Accounts.antt =====
-- src/accounts.rs: the account store and its file. A password is its bytes, and the salt that
-- `random_salt` draws is an argument. A file is its text, `none` where it is missing; a write that fails
-- leaves it as it was. The order of a map's entries is the order in which `save` writes them.

pub mod Certs
pub mod Links
pub mod Positions
pub mod Failures
pub mod Reach
pub mod Verify
mod Examples
use chonkline.Base.{
  ℕ, ◌+◌, ◌-◌, ◌^◌, Bool, true, false, not, ◌&&◌, ◌||◌, Option, none, some, List, [], ◌∷◌, ◌++◌,
  map, length, retain, all, ltb, leb, nat_beq, ◌==◌, if◌then◌else◌, Text, Bytes, text_eq, nat_eq,
  codes, Map, lookup, insert, remove, contains_key, contains, ◌>>=◌, Result, ok, err,
}
use chonkline.Base.Keys.{values}
use chonkline.Str.{is_whitespace, is_ascii_hexdigit, to_ascii_lowercase, byte_len}
use chonkline.Str.Split.{split, lines, unlines, join}
use chonkline.Str.Decimal.{to_decimal, parse_uint}
use chonkline.Str.Utf8.{as_bytes}
use chonkline.Crypto.Base64.{base64_encode, base64_decode}
use chonkline.Crypto.Sha256.{pbkdf2_sha256}
use chonkline.Crypto.Compare.{constant_time_eq}
use chonkline.State.Casemap.{norm_nick, is_service_name}
use chonkline.Bans.{Disk}

abbrev pub iters : ℕ
iters = 100000

abbrev pub hash_len : ℕ
hash_len = 32

abbrev pub max_certs_per_account : ℕ
max_certs_per_account = 8

pub record Account : Type 0 where
  pub name : Text
  pub salt : Bytes
  pub hash : Bytes
  pub iters : ℕ
  pub certs : List Text

pub data CertAdd : Type 0 where
  enrolled : CertAdd
  already : CertAdd

pub record AccountStore : Type 0 where
  pub path : Option Text
  pub map : Map Text Account
  pub by_cert : Map Text Text

abbrev pub is_hex_char : ℕ → Bool
is_hex_char c = not (nat_beq c b':') && not (is_whitespace c)

unfoldable pub normalize_cert_fingerprint : Text → Option Text
normalize_cert_fingerprint raw =
    let hex = retain is_hex_char raw in
    if not (nat_beq (byte_len hex) 64) || not (all is_ascii_hexdigit hex)
    then none
    else some (map to_ascii_lowercase hex)

-- the fingerprints of the fifth field, each once
unfoldable pub certs_from : List Text → List Text → List Text
certs_from certs [] = certs
certs_from certs (part ∷ parts) = elim (normalize_cert_fingerprint part) [
  | none ↦ certs_from certs parts
  | some fp ↦
      let with_it = certs_from (certs ++ fp ∷ []) parts in
      let without_it = certs_from certs parts in if contains fp certs then without_it else with_it
]

abbrev pub certs_of_field : List Text → List Text
certs_of_field [] = []
certs_of_field (field ∷ more) = certs_from [] (split b',' field)

abbrev pub is_nil {ℓ} : {A : Type ℓ} → List A → Bool
is_nil [] = true
is_nil (x ∷ xs) = false

unfoldable pub account_of_fields : List Text → Option Account
account_of_fields (name ∷ n ∷ s ∷ h ∷ more) = parse_uint (2 ^ 32 - 1) n >>= λ iters.
    base64_decode (as_bytes s) >>= λ salt. base64_decode (as_bytes h) >>= λ hash.
    if is_nil name || is_nil salt || is_nil hash
    then none
    else some (record {
      name = name;
      salt = salt;
      hash = hash;
      iters = iters;
      certs = certs_of_field more;
    })
account_of_fields _ = none

unfoldable pub parse_line : Text → Option Account
unfolding account_of_fields
parse_line line = account_of_fields (split 9 line)

-- the fingerprints that nobody holds yet, bound to `key`
unfoldable pub bind_certs : Text → List Text → Map Text Text → List Text × Map Text Text
bind_certs key [] by_cert = ([], by_cert)
bind_certs key (fp ∷ fps) by_cert =
    let kept = bind_certs key fps (insert fp key by_cert) in
    let lost = bind_certs key fps by_cert in
    if contains_key fp by_cert then lost else (fp ∷ kept.0, kept.1)

abbrev pub Tables : Type 0
Tables = Map Text Account × Map Text Text

abbrev pub load_account : Account → Tables → Tables
load_account acct (accounts, by_cert) =
    let key = norm_nick acct.name in
    let bound = bind_certs key acct.certs by_cert in
    (insert key (record acct { certs = bound.0 }) accounts, bound.1)

unfoldable pub load_lines : List Text → Tables → Tables
unfolding parse_line bind_certs
load_lines [] t = t
load_lines (line ∷ rest) t = elim (parse_line line) [
  | none ↦ load_lines rest t
  | some acct ↦ load_lines rest (load_account acct t)
]

-- `content` is what `read_to_string` gives, if it succeeds
abbrev tables_in : Option Text → Option Text → Tables
tables_in none content = ([], [])
tables_in (some p) none = ([], [])
tables_in (some p) (some text) = load_lines (lines text) ([], [])

unfoldable pub load : Option Text → Option Text → AccountStore
unfolding load_lines
load path content =
    let t = tables_in path content in record { path = path; map = t.0; by_cert = t.1 }

unfoldable pub exists : Text → AccountStore → Bool
exists name s = contains_key (norm_nick name) s.map

abbrev pub cert_fields : List Text → List Text
cert_fields [] = []
cert_fields (fp ∷ fps) = join (b',' ∷ []) (fp ∷ fps) ∷ []

-- one line of the file, without its line feed
abbrev pub line_of : Account → Text
line_of a = join (9 ∷ []) (
    a.name ∷ to_decimal a.iters ∷ base64_encode a.salt ∷ base64_encode a.hash ∷ cert_fields a.certs)

-- `save` succeeds with no path, or where the file can be replaced
unfoldable pub save : AccountStore → Disk → Disk × Bool
save s disk = elim s.path [
  | none ↦ (disk, true)
  | some p ↦
      if disk.writable
      then (record disk { content = some (unlines (map line_of (values s.map))) }, true)
      else (disk, false)
]

abbrev pub Attempt : Type 0 → Type 0
Attempt A = (AccountStore × Disk) × Result A Text

abbrev pub fresh : Text → Bytes → Bytes → Account
fresh name pass salt = record {
  name = name;
  salt = salt;
  hash = pbkdf2_sha256 pass salt iters hash_len;
  iters = iters;
  certs = [];
}

unfoldable pub register : Text → Bytes → Bytes → AccountStore × Disk → Attempt (Unit {0})
unfolding save
register name pass salt (s, disk) =
    let key = norm_nick name in
    let s' = record s { map = insert key (fresh name pass salt) s.map } in
    if is_nil key
    then ((s, disk), err (codes "invalid account name"))
    else if is_service_name key
    then ((s, disk), err (codes "that name is reserved"))
    else if contains_key key s.map
    then ((s, disk), err (codes "account already registered"))
    else if is_nil pass
    then ((s, disk), err (codes "password required"))
    else ((s', (save s' disk).0), ok tt)

abbrev pub rehashed : Bytes → Bytes → Account → Account
rehashed pass salt a = record a {
  salt = salt;
  hash = pbkdf2_sha256 pass salt iters hash_len;
  iters = iters;
}

unfoldable pub set_password : Text → Bytes → Bytes → AccountStore × Disk → Attempt (Unit {0})
unfolding save
set_password name pass salt (s, disk) = elim (lookup (norm_nick name) s.map) [
  | none ↦
      if is_nil pass
      then ((s, disk), err (codes "password required"))
      else ((s, disk), err (codes "account not registered"))
  | some a ↦
      let s' = record s { map = insert (norm_nick name) (rehashed pass salt a) s.map } in
      if is_nil pass
      then ((s, disk), err (codes "password required"))
      else ((s', (save s' disk).0), ok tt)
]

abbrev pub account_name : Account → Text
account_name a = a.name

unfoldable pub account_for_cert : Text → AccountStore → Option Text
account_for_cert raw s = normalize_cert_fingerprint raw >>= λ fp.
    lookup fp s.by_cert >>= λ key. lookup key s.map >>= λ a. some (account_name a)

abbrev pub with_cert : Text → Account → Account
with_cert fp a = record a { certs = a.certs ++ fp ∷ [] }

abbrev pub other_text : Text → Text → Bool
other_text x y = not (y == x)

abbrev pub without_cert : Text → Account → Account
without_cert fp a = record a { certs = retain (other_text fp) a.certs }

unfoldable pub verify : Text → Bytes → AccountStore → Bool
verify name pass s = elim (lookup (norm_nick name) s.map) [
  | none ↦ false
  | some a ↦ constant_time_eq (pbkdf2_sha256 pass a.salt a.iters (length a.hash)) a.hash
]
