-- ===== src/Accounts/Certs.antt =====
-- src/accounts.rs: the certificates that are bound to an account.
use chonkline.Base.{
  ℕ, zero, suc, ◌+◌, Option, none, some, List, [], ◌∷◌, length, leb, ◌==◌, if◌then◌else◌, Text,
  text_eq, codes, lookup, insert, remove, ok, err,
}
use chonkline.State.Casemap.{norm_nick}
use chonkline.Bans.{Disk}
use chonkline.Accounts.{
  Account, AccountStore, Attempt, CertAdd, enrolled, already, max_certs_per_account,
  normalize_cert_fingerprint, save, with_cert, without_cert,
}

abbrev pub stored : Text → Text → Account → AccountStore → AccountStore
stored key fp a s = record s {
  map = insert key (with_cert fp a) s.map;
  by_cert = insert fp key s.by_cert;
}

-- after a failed `save`
abbrev pub withdrawn : Text → Text → Account → AccountStore → AccountStore
withdrawn key fp a s = record s {
  map = insert key (without_cert fp (with_cert fp a)) s.map;
  by_cert = remove fp s.by_cert;
}

-- the fingerprint of nobody, for the account `a` under `key`
abbrev pub enroll : Text → Text → Account → AccountStore × Disk → Attempt CertAdd
enroll key fp a (s, disk) =
    let s' = stored key fp a s in
    if leb max_certs_per_account (length a.certs)
    then ((s, disk), err (codes "certificate limit reached"))
    else if (save s' disk).1
    then ((s', (save s' disk).0), ok enrolled)
    else ((withdrawn key fp a s', (save s' disk).0), err (codes "could not save account store"))

abbrev pub bind : Text → Text → AccountStore × Disk → Attempt CertAdd
bind key fp (s, disk) = elim (lookup key s.map) [
  | none ↦ ((s, disk), err (codes "account not registered"))
  | some a ↦ elim (lookup fp s.by_cert) [
    | some owner ↦
        if owner == key
        then ((s, disk), ok already)
        else ((s, disk), err (codes "certificate belongs to another account"))
    | none ↦ enroll key fp a (s, disk)
  ]
]

unfoldable pub add_cert : Text → Text → AccountStore × Disk → Attempt CertAdd
add_cert name raw t = elim (normalize_cert_fingerprint raw) [
  | none ↦ (t, err (codes "invalid fingerprint"))
  | some fp ↦ bind (norm_nick name) fp t
]

unfoldable pub position : Text → List Text → Option ℕ
position x [] = none
position x (y ∷ ys) =
    let rest = position x ys in
    if y == x then some 0 else elim rest [ none ↦ none | some i ↦ some (i + 1) ]

unfoldable pub remove_at : ℕ → List Text → List Text
remove_at i [] = []
remove_at zero (x ∷ xs) = xs
remove_at (suc i) (x ∷ xs) = x ∷ remove_at i xs

unfoldable pub insert_at : ℕ → Text → List Text → List Text
insert_at zero y xs = y ∷ xs
insert_at (suc i) y [] = y ∷ []
insert_at (suc i) y (x ∷ xs) = x ∷ insert_at i y xs

abbrev pub taken : Text → Text → ℕ → Account → AccountStore → AccountStore
taken key fp i a s = record s {
  map = insert key (record a { certs = remove_at i a.certs }) s.map;
  by_cert = remove fp s.by_cert;
}

-- after a failed `save`
abbrev pub put_back : Text → Text → ℕ → Account → AccountStore → AccountStore
put_back key fp i a s = record s {
  map = insert key (record a { certs = insert_at i fp (remove_at i a.certs) }) s.map;
  by_cert = insert fp key s.by_cert;
}

abbrev pub unbind : Text → Text → AccountStore × Disk → Attempt (Unit {0})
unbind key fp (s, disk) = elim (lookup key s.map) [
  | none ↦ ((s, disk), err (codes "account not registered"))
  | some a ↦ elim (position fp a.certs) [
    | none ↦ ((s, disk), err (codes "no such certificate"))
    | some i ↦
        let s' = taken key fp i a s in
        if (save s' disk).1 then ((s', (save s' disk).0), ok tt) else (
          (put_back key fp i a s', (save s' disk).0),
          err (codes "could not save account store"),
        )
  ]
]

unfoldable pub remove_cert : Text → Text → AccountStore × Disk → Attempt (Unit {0})
remove_cert name raw t = elim (normalize_cert_fingerprint raw) [
  | none ↦ (t, err (codes "invalid fingerprint"))
  | some fp ↦ unbind (norm_nick name) fp t
]
