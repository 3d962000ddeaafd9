-- ===== src/Accounts/Failures.antt =====
-- src/accounts.rs: the tables after an enrolment or a removal that does not succeed.
use chonkline.Base.{
  ℕ, ◌≡◌, refl, sym, ap, subst, ◌∙◌, Bool, true, false, none, some, List, [], ◌∷◌, ◌++◌, length,
  retain, leb, ◌==◌, Text, text_eq, text_beq_iff, lookup, insert, remove, contains, beq_refl,
  Result, ok, err, arith, lookup-insert, lookup-remove, if_both, Bool-cases, Option-cases, inl, inr,
}
use chonkline.Bans.{Disk}
use chonkline.State.Casemap.{norm_nick}
use chonkline.Accounts.{
  Account, AccountStore, Attempt, normalize_cert_fingerprint, save, with_cert, without_cert,
  other_text, max_certs_per_account,
}
use chonkline.Accounts.Certs.{
  add_cert, remove_cert, stored, withdrawn, taken, put_back, bind, enroll, unbind, position,
  remove_at, insert_at,
}
use chonkline.Accounts.Links.{IsLinked, unowned, is_owner-some}
use chonkline.Accounts.Positions.{IsAt, position-IsAt}

-- the same answers to every lookup
pub record Alike (s t : AccountStore) : Type 0 where
  pub same_path : s.path ≡ t.path
  pub same_accounts : (key : Text) → lookup key s.map ≡ lookup key t.map
  pub same_owners : (fp : Text) → lookup fp s.by_cert ≡ lookup fp t.by_cert

same_lookups : (s : AccountStore) → Alike s s
same_lookups s = record { same_path = refl; same_accounts = λ k. refl; same_owners = λ k. refl }

abbrev pub is_err {ℓ} : {A E : Type ℓ} → Result A E → Bool
is_err (ok a) = false
is_err (err e) = true

-- a failed attempt leaves the store as it was
pub record Undone {A : Type 0} (s : AccountStore) (attempt : Attempt A) : Type 0 where
  pub undone : is_err attempt.1 ≡ true → Alike attempt.0.0 s

refused : {A : Type 0} (s : AccountStore) (d : Disk) (e : Text) → Undone {A = A} s ((s, d), err e)
refused s d e = record { undone = λ h. same_lookups s }

-- inserted twice under one key, the second time with what stood there
twice :
    {V : Type 0} (key k : Text) (v w : V) (m : List (Text × V))
    → lookup key m ≡ some w
    → lookup k (insert key w (insert key v m)) ≡ lookup k m
twice key k v w m h =
    rw (lookup-insert key k w (insert key v m), lookup-insert key k v m)
      (elim (Bool-cases (key == k)) [
        | inl e ↦
            rw e (sym (subst (λ (x : Text). lookup x m ≡ some w) ((text_beq_iff key k).0 e) h))
        | inr e ↦ rw e refl
      ])

retain-append :
    (fp : Text) (xs : List Text)
    → contains fp xs ≡ false
    → retain (other_text fp) (xs ++ fp ∷ []) ≡ xs
retain-append fp [] h = rw (beq_refl fp) refl
retain-append fp (x ∷ xs) h = ground (arith, retain-append fp xs)

added_and_removed :
    (fp x key : Text) (m : List (Text × Text))
    → lookup fp m ≡ none
    → lookup x (remove fp (insert fp key m)) ≡ lookup x m
added_and_removed fp x key m n =
    rw (lookup-remove fp x (insert fp key m), lookup-insert fp x key m)
      (elim (Bool-cases (fp == x)) [
        | inl e ↦ rw e (sym (subst (λ (u : Text). lookup u m ≡ none) ((text_beq_iff fp x).0 e) n))
        | inr e ↦ rw e refl
      ])

removed_and_added :
    (fp x key : Text) (m : List (Text × Text))
    → lookup fp m ≡ some key
    → lookup x (insert fp key (remove fp m)) ≡ lookup x m
removed_and_added fp x key m n =
    rw (lookup-insert fp x key (remove fp m), lookup-remove fp x m)
      (elim (Bool-cases (fp == x)) [
        | inl e ↦
            rw e (sym (subst (λ (u : Text). lookup u m ≡ some key) ((text_beq_iff fp x).0 e) n))
        | inr e ↦ rw e refl
      ])

pub withdrawn-Alike :
    (key fp : Text) (a : Account) (s : AccountStore)
    → lookup key s.map ≡ some a
    → lookup fp s.by_cert ≡ none
    → IsLinked s
    → Alike (withdrawn key fp a (stored key fp a s)) s
withdrawn-Alike key fp a s h n w =
    let absent : contains fp a.certs ≡ false = rw h at (unowned fp key s n w) in
    let same : without_cert fp (with_cert fp a) ≡ a =
      ap (λ (x : List Text). record a { certs = x }) (retain-append fp a.certs absent) in
    record {
      same_path = refl;
      same_accounts = λ k. rw same (twice key k (with_cert fp a) a s.map h);
      same_owners = λ x. added_and_removed fp x key s.by_cert n;
    }

pub put_back-Alike :
    (key fp : Text) (i : ℕ) (a : Account) (s : AccountStore)
    → lookup key s.map ≡ some a
    → IsAt fp i a.certs
    → IsLinked s
    → Alike (put_back key fp i a (taken key fp i a s)) s
put_back-Alike key fp i a s h p w =
    let same : record a { certs = insert_at i fp (remove_at i a.certs) } ≡ a =
      ap (λ (x : List Text). record a { certs = x }) p.restored in
    let mine : lookup fp s.by_cert ≡ some key =
      is_owner-some key (lookup fp s.by_cert) (w.linked fp key ∙ (rw h p.held)) in
    record {
      same_path = refl;
      same_accounts =
          λ k. rw same (twice key k (record a { certs = remove_at i a.certs }) a s.map h);
      same_owners = λ x. removed_and_added fp x key s.by_cert mine;
    }

enroll-Undone :
    (key fp : Text) (a : Account) (s : AccountStore) (d : Disk)
    → lookup key s.map ≡ some a
    → lookup fp s.by_cert ≡ none
    → IsLinked s
    → Undone s (enroll key fp a (s, d))
enroll-Undone key fp a s d h n w =
    if_both (Undone s) (leb max_certs_per_account (length a.certs)) (refused s d _) (
      if_both (Undone s) (save (stored key fp a s) d).1 (record { undone = λ e. cc })
        (record { undone = λ e. withdrawn-Alike key fp a s h n w }))

bind-Undone :
    (key fp : Text) (s : AccountStore) (d : Disk) → IsLinked s → Undone s (bind key fp (s, d))
bind-Undone key fp s d w = elim (Option-cases (lookup key s.map)) [
  | inl n ↦ rw (n, bind) (refused s d _)
  | inr (a, h) ↦ elim (Option-cases (lookup fp s.by_cert)) [
    | inl n ↦ rw (h, n, bind) (enroll-Undone key fp a s d h n w)
    | inr (owner, n) ↦
        rw (h, n, bind)
          (if_both (Undone s) (owner == key) (record { undone = λ e. same_lookups s })
            (refused s d _))
  ]
]

-- In a store whose table of fingerprints names exactly the account whose list holds the fingerprint, and
-- whose lists hold none twice, an enrolment that does not succeed leaves every lookup in the accounts and
-- in the table as it was: where the fingerprint is malformed, the account is missing, the fingerprint is
-- another account's, the list is full, and where the file cannot be written.
pub add_cert-Undone :
    (name raw : Text) (s : AccountStore) (d : Disk)
    → IsLinked s
    → Undone s (add_cert name raw (s, d))
unfolding add_cert
add_cert-Undone name raw s d w = elim (Option-cases (normalize_cert_fingerprint raw)) [
  | inl n ↦ rw (n, add_cert) (refused s d _)
  | inr (fp, n) ↦ rw (n, add_cert) (bind-Undone (norm_nick name) fp s d w)
]

unbind-Undone :
    (key fp : Text) (s : AccountStore) (d : Disk) → IsLinked s → Undone s (unbind key fp (s, d))
unbind-Undone key fp s d w = elim (Option-cases (lookup key s.map)) [
  | inl n ↦ rw (n, unbind) (refused s d _)
  | inr (a, h) ↦ elim (Option-cases (position fp a.certs)) [
    | inl n ↦ rw (h, n, unbind) (refused s d _)
    | inr (i, n) ↦
        rw (h, n, unbind)
          (if_both (Undone s) (save (taken key fp i a s) d).1 (record { undone = λ e. cc })
            (record {
              undone = λ e. put_back-Alike key fp i a s h (position-IsAt fp a.certs i n) w;
            }))
  ]
]

-- In a store whose table of fingerprints names exactly the account whose list holds the fingerprint, and
-- whose lists hold none twice, a removal that does not succeed leaves every lookup in the accounts and in
-- the table as it was: where the fingerprint is malformed, the account or the fingerprint is missing, and
-- where the file cannot be written.
pub remove_cert-Undone :
    (name raw : Text) (s : AccountStore) (d : Disk)
    → IsLinked s
    → Undone s (remove_cert name raw (s, d))
unfolding remove_cert
remove_cert-Undone name raw s d w = elim (Option-cases (normalize_cert_fingerprint raw)) [
  | inl n ↦ rw (n, remove_cert) (refused s d _)
  | inr (fp, n) ↦ rw (n, remove_cert) (unbind-Undone (norm_nick name) fp s d w)
]
