-- ===== src/Accounts/Links.antt =====
-- src/accounts.rs: a fingerprint and the account that it is bound to, in the two tables.
use chonkline.Base.{
  ◌≡◌, refl, sym, ap, subst, ◌∙◌, Bool, true, false, ◌||◌, Option, none, some, List, [], ◌∷◌, ◌++◌,
  ◌==◌, Text, text_eq, text_beq_iff, lookup, insert, contains, arith, lookup-insert, if_both,
  Bool-cases, inl, inr, Map,
}
use chonkline.Accounts.{Account, AccountStore, with_cert}
use chonkline.Accounts.Certs.{stored}

abbrev pub is_owner : Text → Option Text → Bool
is_owner key none = false
is_owner key (some owner) = owner == key

abbrev pub has_cert : Text → Option Account → Bool
has_cert fp none = false
has_cert fp (some a) = contains fp a.certs

abbrev pub Once : List Text → Type 0
Once [] = Unit
Once (x ∷ xs) = (contains x xs ≡ false) × Once xs

abbrev pub OnceIn : Option Account → Type 0
OnceIn none = Unit
OnceIn (some a) = Once a.certs

-- the table of fingerprints agrees with the accounts' lists, which name no fingerprint twice
pub record IsLinked (s : AccountStore) : Type 0 where
  pub linked : (fp key : Text) → is_owner key (lookup fp s.by_cert) ≡ has_cert fp (lookup key s.map)
  pub once : (key : Text) → OnceIn (lookup key s.map)

-- an account replaced by one that agrees on a fingerprint
pub has_cert-insert :
    (key : Text) (a : Account) (m : Map Text Account) (fp : Text)
    → contains fp a.certs ≡ has_cert fp (lookup key m)
    → (k : Text) → has_cert fp (lookup k (insert key a m)) ≡ has_cert fp (lookup k m)
has_cert-insert key a m fp same k = rw (lookup-insert key k a m) (elim (Bool-cases (key == k)) [
  | inl h ↦ rw h (same ∙ ap (λ (j : Text). has_cert fp (lookup j m)) ((text_beq_iff key k).0 h))
  | inr h ↦ rw h refl
])

pub OnceIn-insert :
    (key : Text) (a : Account) (m : Map Text Account)
    → Once a.certs
    → ((k : Text) → OnceIn (lookup k m))
    → (k : Text) → OnceIn (lookup k (insert key a m))
OnceIn-insert key a m o w k = rw (lookup-insert key k a m) (if_both OnceIn (key == k) o (w k))

pub same_certs :
    (key : Text) (a : Account) (s : AccountStore)
    → ((fp : Text) → contains fp a.certs ≡ has_cert fp (lookup key s.map))
    → Once a.certs
    → IsLinked s
    → IsLinked (record s { map = insert key a s.map })
same_certs key a s same o w = record {
  linked = λ fp k. w.linked fp k ∙ sym (has_cert-insert key a s.map fp (same fp) k);
  once = OnceIn-insert key a s.map o w.once;
}

contains-append :
    (x y : Text) (xs : List Text) → contains x (xs ++ y ∷ []) ≡ (contains x xs || y == x)
contains-append x y [] = ground arith
contains-append x y (z ∷ xs) = ground (arith, contains-append x y xs)

Once-append : (y : Text) (xs : List Text) → Once xs → contains y xs ≡ false → Once (xs ++ y ∷ [])
Once-append y [] o n = (refl, tt)
Once-append y (x ∷ xs) o n = (
  contains-append x y xs ∙ ground (arith, n, o.0, text_beq_iff x y, text_beq_iff y x),
  Once-append y xs o.1 (ground (arith, n)),
)

-- nobody's fingerprint is on no list
pub unowned :
    (fp key : Text) (s : AccountStore)
    → lookup fp s.by_cert ≡ none
    → IsLinked s
    → has_cert fp (lookup key s.map) ≡ false
unowned fp key s n w = sym (w.linked fp key) ∙ rw n refl

-- a fingerprint of nobody, bound to an account
pub stored-IsLinked :
    (key fp : Text) (a : Account) (s : AccountStore)
    → lookup key s.map ≡ some a
    → lookup fp s.by_cert ≡ none
    → IsLinked s
    → IsLinked (stored key fp a s)
stored-IsLinked key fp a s h n w = record {
  linked = link;
  once =
      OnceIn-insert key (with_cert fp a) s.map
        (Once-append fp a.certs (rw h at (w.once key)) absent) w.once;
}
  where
    absent : contains fp a.certs ≡ false
    absent = rw h at (unowned fp key s n w)

    link :
        (other k : Text)
        → is_owner k (lookup other (insert fp key s.by_cert))
          ≡ has_cert other (lookup k (insert key (with_cert fp a) s.map))
    link other k = elim (Bool-cases (fp == other)) [
      | inl e ↦
          rw (lookup-insert fp other key s.by_cert, e, lookup-insert key k (with_cert fp a) s.map)
            (elim (Bool-cases (key == k)) [
              | inl same ↦ rw same (sym (contains-append other fp a.certs ∙ ground (arith, e)))
              | inr differs ↦ rw differs (
                  sym (
                    subst (λ (x : Text). has_cert x (lookup k s.map) ≡ false)
                      ((text_beq_iff fp other).0 e) (unowned fp k s n w)))
            ])
      | inr e ↦
          rw (lookup-insert fp other key s.by_cert, e)
            (w.linked other k
              ∙ sym (
                  has_cert-insert key (with_cert fp a) s.map other
                    (contains-append other fp a.certs ∙ ground (arith, e, h)) k))
    ]

pub is_owner-some : (key : Text) (o : Option Text) → is_owner key o ≡ true → o ≡ some key
is_owner-some key none h = cc
is_owner-some key (some x) h = ap some ((text_beq_iff x key).0 h)
