-- ===== src/Accounts/Reach.antt =====
-- src/accounts.rs: the stores that come about by the operations, from one that holds nothing, on a file
-- that may become unwritable at any moment. A store that `load` reads is not one of these: a file may
-- bind a fingerprint to an account that does not list it.
use chonkline.Base.{
  ℕ, ◌≡◌, refl, sym, subst, ◌∙◌, true, Option, none, some, [], length, leb, ◌==◌, Text, Bytes,
  text_eq, text_beq_iff, lookup, insert, remove, contains_key, beq_refl, Result, arith,
  lookup-insert, lookup-remove, if_both, Bool-cases, Option-cases, inl, inr,
}
use chonkline.Bans.{Disk}
use chonkline.State.Casemap.{norm_nick, is_service_name}
use chonkline.Accounts.{
  Account, AccountStore, Attempt, normalize_cert_fingerprint, save, register, set_password,
  account_for_cert, account_name, fresh, rehashed, max_certs_per_account, is_nil,
}
use chonkline.Accounts.Certs.{
  add_cert, remove_cert, stored, taken, bind, enroll, unbind, position, remove_at,
}
use chonkline.Accounts.Links.{
  IsLinked, Once, is_owner, has_cert, is_owner-some, same_certs, has_cert-insert, OnceIn-insert,
  stored-IsLinked,
}
use chonkline.Accounts.Positions.{IsAt, position-IsAt}
use chonkline.Accounts.Failures.{Alike, withdrawn-Alike, put_back-Alike}

Alike-IsLinked : (s t : AccountStore) → Alike s t → IsLinked t → IsLinked s
Alike-IsLinked s t a w = record {
  linked = λ fp k. rw (a.same_owners fp, a.same_accounts k) (w.linked fp k);
  once = λ k. rw (a.same_accounts k) (w.once k);
}

-- a fingerprint taken from the account that holds it
taken-IsLinked :
    (key fp : Text) (i : ℕ) (a : Account) (s : AccountStore)
    → lookup key s.map ≡ some a
    → IsAt fp i a.certs
    → IsLinked s
    → IsLinked (taken key fp i a s)
taken-IsLinked key fp i a s h p w = record {
  linked = link;
  once = OnceIn-insert key less s.map (p.rest_once o) w.once;
}
  where
    less : Account
    less = record a { certs = remove_at i a.certs }

    o : Once a.certs
    o = rw h at (w.once key)

    mine : lookup fp s.by_cert ≡ some key
    mine = is_owner-some key (lookup fp s.by_cert) (w.linked fp key ∙ (rw h p.held))

    gone :
        (k : Text)
        → is_owner k (lookup fp (remove fp s.by_cert))
          ≡ has_cert fp (lookup k (insert key less s.map))
    gone k =
        rw (lookup-remove fp fp s.by_cert, beq_refl fp, lookup-insert key k less s.map)
          (elim (Bool-cases (key == k)) [
            | inl same ↦ rw same (sym (p.rest fp o ∙ rw (beq_refl fp) refl))
            | inr differs ↦ rw differs (sym (sym (w.linked fp k) ∙ rw mine differs))
          ])

    link :
        (other k : Text)
        → is_owner k (lookup other (remove fp s.by_cert))
          ≡ has_cert other (lookup k (insert key less s.map))
    link other k = elim (Bool-cases (fp == other)) [
      | inl e ↦
          subst
            (λ (x : Text).
              is_owner k (lookup x (remove fp s.by_cert))
              ≡ has_cert x (lookup k (insert key less s.map)))
            ((text_beq_iff fp other).0 e) (gone k)
      | inr e ↦
          rw (lookup-remove fp other s.by_cert, e)
            (w.linked other k
              ∙ sym
                  (has_cert-insert key less s.map other (p.rest other o ∙ ground (arith, e, h)) k))
    ]

-- what an attempt leaves behind
record Linked {A : Type 0} (attempt : Attempt A) : Type 0 where
  store : IsLinked attempt.0.0

same :
    {A : Type 0} (s : AccountStore) (d : Disk) (r : Result A Text) → IsLinked s → Linked ((s, d), r)
same s d r w = record { store = w }

register-Linked :
    (name : Text) (pass salt : Bytes) (s : AccountStore) (d : Disk)
    → IsLinked s
    → Linked (register name pass salt (s, d))
unfolding register contains_key
register-Linked name pass salt s d w =
    let key = norm_nick name in
    if_both Linked (is_nil key) (same s d _ w) (
      if_both Linked (is_service_name key) (same s d _ w) (elim (Option-cases (lookup key s.map)) [
        | inl n ↦
            rw (n, contains_key)
              (if_both Linked (is_nil pass) (same s d _ w)
                (record { store = same_certs key (fresh name pass salt) s (λ fp. rw n refl) tt w }))
        | inr (a, n) ↦ rw (n, contains_key) (same s d _ w)
      ]))

set_password-Linked :
    (name : Text) (pass salt : Bytes) (s : AccountStore) (d : Disk)
    → IsLinked s
    → Linked (set_password name pass salt (s, d))
unfolding set_password
set_password-Linked name pass salt s d w = elim (Option-cases (lookup (norm_nick name) s.map)) [
  | inl n ↦ rw (n, set_password) (if_both Linked (is_nil pass) (same s d _ w) (same s d _ w))
  | inr (a, n) ↦
      let kept : Once a.certs = rw n at (w.once (norm_nick name)) in
      rw (n, set_password)
        (if_both Linked (is_nil pass) (same s d _ w) (record {
          store = same_certs (norm_nick name) (rehashed pass salt a) s (λ fp. rw n refl) kept w;
        }))
]

enroll-Linked :
    (key fp : Text) (a : Account) (s : AccountStore) (d : Disk)
    → lookup key s.map ≡ some a
    → lookup fp s.by_cert ≡ none
    → IsLinked s
    → Linked (enroll key fp a (s, d))
enroll-Linked key fp a s d h n w =
    if_both Linked (leb max_certs_per_account (length a.certs)) (same s d _ w) (
      if_both Linked (save (stored key fp a s) d).1
        (record { store = stored-IsLinked key fp a s h n w })
        (record { store = Alike-IsLinked _ s (withdrawn-Alike key fp a s h n w) w }))

add_cert-Linked :
    (name raw : Text) (s : AccountStore) (d : Disk) → IsLinked s → Linked (add_cert name raw (s, d))
unfolding add_cert
add_cert-Linked name raw s d w = elim (Option-cases (normalize_cert_fingerprint raw)) [
  | inl m ↦ rw (m, add_cert) (same s d _ w)
  | inr (fp, m) ↦
      rw (m, add_cert)
        (elim (Option-cases (lookup (norm_nick name) s.map)) [
          | inl n ↦ rw (n, bind) (same s d _ w)
          | inr (a, h) ↦ elim (Option-cases (lookup fp s.by_cert)) [
            | inl n ↦ rw (h, n, bind) (enroll-Linked (norm_nick name) fp a s d h n w)
            | inr (owner, n) ↦
                rw (h, n, bind)
                  (if_both Linked (owner == norm_nick name) (same s d _ w) (same s d _ w))
          ]
        ])
]

remove_cert-Linked :
    (name raw : Text) (s : AccountStore) (d : Disk)
    → IsLinked s
    → Linked (remove_cert name raw (s, d))
unfolding remove_cert
remove_cert-Linked name raw s d w = elim (Option-cases (normalize_cert_fingerprint raw)) [
  | inl m ↦ rw (m, remove_cert) (same s d _ w)
  | inr (fp, m) ↦
      let key = norm_nick name in
      rw (m, remove_cert)
        (elim (Option-cases (lookup key s.map)) [
          | inl n ↦ rw (n, unbind) (same s d _ w)
          | inr (a, h) ↦ elim (Option-cases (position fp a.certs)) [
            | inl n ↦ rw (h, n, unbind) (same s d _ w)
            | inr (i, n) ↦
                let p = position-IsAt fp a.certs i n in
                rw (h, n, unbind)
                  (if_both Linked (save (taken key fp i a s) d).1
                    (record { store = taken-IsLinked key fp i a s h p w })
                    (record { store = Alike-IsLinked _ s (put_back-Alike key fp i a s h p w) w }))
          ]
        ])
]

pub data Reached : AccountStore × Disk → Type 0 where
  empty :
      (path : Option Text) (d : Disk) → Reached (record { path = path; map = []; by_cert = [] }, d)
  registers :
      (name : Text) (pass salt : Bytes) {s : AccountStore} {d : Disk}
      → Reached (s, d)
      → Reached (register name pass salt (s, d)).0
  sets_password :
      (name : Text) (pass salt : Bytes) {s : AccountStore} {d : Disk}
      → Reached (s, d)
      → Reached (set_password name pass salt (s, d)).0
  enrolls :
      (name raw : Text) {s : AccountStore} {d : Disk}
      → Reached (s, d)
      → Reached (add_cert name raw (s, d)).0
  removes :
      (name raw : Text) {s : AccountStore} {d : Disk}
      → Reached (s, d)
      → Reached (remove_cert name raw (s, d)).0
  disk_changes : (d' : Disk) {s : AccountStore} {d : Disk} → Reached (s, d) → Reached (s, d')

-- In every store that registrations, changes of a password, enrolments and removals of certificates make
-- from one without accounts, whatever becomes of the disk between them, the table of fingerprints names
-- exactly the account whose list holds the fingerprint, and no list holds one twice. A store that `load`
-- reads from a file is not among these.
pub reached-IsLinked : {t : AccountStore × Disk} → Reached t → IsLinked t.0
unfolding lookup
reached-IsLinked (empty path d) = record { linked = λ fp k. refl; once = λ k. tt }
reached-IsLinked (registers name pass salt {s} {d} r) =
    (register-Linked name pass salt s d (reached-IsLinked r)).store
reached-IsLinked (sets_password name pass salt {s} {d} r) =
    (set_password-Linked name pass salt s d (reached-IsLinked r)).store
reached-IsLinked (enrolls name raw {s} {d} r) =
    (add_cert-Linked name raw s d (reached-IsLinked r)).store
reached-IsLinked (removes name raw {s} {d} r) =
    (remove_cert-Linked name raw s d (reached-IsLinked r)).store
reached-IsLinked (disk_changes d' r) = reached-IsLinked r

abbrev pub name_of : Option Account → Option Text
name_of none = none
name_of (some a) = some (account_name a)

-- In such a store, a certificate stands for the one account whose list holds its
-- fingerprint.
pub reached-account_for_cert :
    {t : AccountStore × Disk} (raw fp key : Text)
    → Reached t
    → normalize_cert_fingerprint raw ≡ some fp
    → has_cert fp (lookup key t.0.map) ≡ true
    → account_for_cert raw t.0 ≡ name_of (lookup key t.0.map)
unfolding account_for_cert
reached-account_for_cert {t} raw fp key r n h =
    let mine : lookup fp t.0.by_cert ≡ some key =
      is_owner-some key (lookup fp t.0.by_cert) ((reached-IsLinked r).linked fp key ∙ h) in
    elim (Option-cases (lookup key t.0.map)) [
      | inl e ↦ rw (n, mine, e) refl
      | inr (a, e) ↦ rw (n, mine, e) refl
    ]
