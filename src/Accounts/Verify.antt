-- ===== src/Accounts/Verify.antt =====
-- src/accounts.rs: `verify` after `register` and after `set_password`.
use chonkline.Base.{
  ◌≡◌, ◌↔◌, refl, true, false, ◌==◌, Text, Bytes, text_eq, lookup, insert, contains_key, Result, ok,
  err, lookup-insert, if_both, Option-cases, inl, inr,
}
use chonkline.Bans.{Disk}
use chonkline.State.Casemap.{norm_nick, is_service_name}
use chonkline.Crypto.Compare.{constant_time_eq_iff}
use chonkline.Crypto.Sha256.{pbkdf2_sha256}
use chonkline.Crypto.Sha256.Sizes.{pbkdf2_sha256-IsSized}
use chonkline.Accounts.{
  Account, AccountStore, Attempt, register, set_password, verify, fresh, rehashed, is_nil, iters,
  hash_len,
}
use chonkline.Accounts.Failures.{is_err}

abbrev pub derived : Bytes → Bytes → Bytes
derived pass salt = pbkdf2_sha256 pass salt iters hash_len

-- whose password was set, and what is asked of everybody since
pub record Answers (name : Text) (pass salt : Bytes) (s : AccountStore)
    (attempt : Attempt (Unit {0})) : Type 0 where
  pub mine :
      (spelling : Text) (given : Bytes)
      → is_err attempt.1 ≡ false
      → (norm_nick name == norm_nick spelling) ≡ true
      → (verify spelling given attempt.0.0 ≡ true) ↔ (derived given salt ≡ derived pass salt)
  pub others :
      (other : Text) (given : Bytes)
      → (norm_nick name == norm_nick other) ≡ false
      → verify other given attempt.0.0 ≡ verify other given s

-- an account of that password, under that name
inserted-Answers :
    (name : Text) (pass salt : Bytes) (a : Account) (s : AccountStore) (d : Disk)
    (r : Result (Unit {0}) Text)
    → a.salt ≡ salt
    → a.iters ≡ iters
    → a.hash ≡ derived pass salt
    → Answers name pass salt s ((record s { map = insert (norm_nick name) a s.map }, d), r)
unfolding verify
inserted-Answers name pass salt a s d r es ei eh = record {
  mine = λ spelling given ok_it e.
      let size = (pbkdf2_sha256-IsSized pass salt iters hash_len).size in
      rw (lookup-insert (norm_nick name) (norm_nick spelling) a s.map, verify, e, eh, es, ei, size)
        (constant_time_eq_iff (derived given salt) (derived pass salt)
          (pbkdf2_sha256-IsSized given salt iters hash_len).octets
          (pbkdf2_sha256-IsSized pass salt iters hash_len).octets);
  others = λ other given e.
      rw (lookup-insert (norm_nick name) (norm_nick other) a s.map, verify, e) refl;
}

refused :
    (name : Text) (pass salt : Bytes) (s : AccountStore) (d : Disk) (e : Text)
    → Answers name pass salt s ((s, d), err e)
refused name pass salt s d e = record {
  mine = λ spelling given h k. cc;
  others = λ other given h. refl;
}

-- After a registration that succeeds, a password is accepted for every name that folds to the same key as
-- the registered one exactly when it derives the same hash as the one registered; for a name that folds to
-- another key nothing changes, whether the registration succeeds or not.
pub register-Answers :
    (name : Text) (pass salt : Bytes) (s : AccountStore) (d : Disk)
    → Answers name pass salt s (register name pass salt (s, d))
unfolding register
register-Answers name pass salt s d =
    let key = norm_nick name in
    let no = refused name pass salt s d in
    let P = Answers name pass salt s in
    if_both P (is_nil key) (no _) (
      if_both P (is_service_name key) (no _) (
        if_both P (contains_key key s.map) (no _) (
          if_both P (is_nil pass) (no _)
            (inserted-Answers name pass salt (fresh name pass salt) s _ (ok tt) refl refl refl))))

-- After a change of password that succeeds, exactly the passwords that derive the new hash are accepted
-- for the names that fold to the same key; for other names nothing changes.
pub set_password-Answers :
    (name : Text) (pass salt : Bytes) (s : AccountStore) (d : Disk)
    → Answers name pass salt s (set_password name pass salt (s, d))
unfolding set_password
set_password-Answers name pass salt s d =
    let P = Answers name pass salt s in
    elim (Option-cases (lookup (norm_nick name) s.map)) [
      | inl n ↦
          rw (n, set_password)
            (if_both P (is_nil pass) (refused name pass salt s d _) (refused name pass salt s d _))
      | inr (a, n) ↦
          rw (n, set_password)
            (if_both P (is_nil pass) (refused name pass salt s d _)
              (inserted-Answers name pass salt (rehashed pass salt a) s _ (ok tt) refl refl refl))
    ]
