-- ===== src/State/Channel/Members.antt =====
-- src/state.rs: membership, privileges, and what ejecting a user does to them.
use chonkline.Base.{
  ℕ, ◌≡◌, refl, sym, ◌∙◌, Bool, true, false, not, ◌&&◌, Option, some, List, [], ◌∷◌, any, nat_beq,
  nat_eq, contains, arith, Bool-cases, inl, inr, nat_beq_iff, some-injective,
}
use chonkline.State.Sets.{set_remove, contains-set_remove}
use chonkline.State.Channel.{Chn, is_member, is_op, is_voiced}
use chonkline.State.Channel.Edits.{eject, other_id}

-- operators and voiced users are members
pub record IsPrivileged (c : Chn) : Type 0 where
  pub ops_in : (id : ℕ) → contains id c.ops ≡ true → contains id c.members ≡ true
  pub voices_in : (id : ℕ) → contains id c.voices ≡ true → contains id c.members ≡ true

-- An ejected user is no member and has no privilege, every other user has what it had, and where
-- the answer is that no operator is left there is none.
pub record Ejected (cx_id : ℕ) (c : Chn) (r : Chn × Option Bool) : Type 0 where
  pub member : (id : ℕ) → is_member id r.0 ≡ (not (nat_beq cx_id id) && is_member id c)
  pub op : (id : ℕ) → is_op id r.0 ≡ (not (nat_beq cx_id id) && is_op id c)
  pub voice : (id : ℕ) → is_voiced id r.0 ≡ (not (nat_beq cx_id id) && is_voiced id c)
  pub last_op : r.1 ≡ some false → (id : ℕ) → is_op id r.0 ≡ false

no_other :
    (cx_id id : ℕ) (ops : List ℕ)
    → any (other_id cx_id) ops ≡ false
    → contains id (set_remove cx_id ops) ≡ false
unfolding set_remove
no_other cx_id id [] h = refl
no_other cx_id id (x ∷ ops) h = ground (arith, no_other cx_id id ops)

-- a user that is not there is already without what it would lose
without :
    (cx_id id : ℕ) (xs : List ℕ)
    → contains cx_id xs ≡ false
    → contains id xs ≡ (not (nat_beq cx_id id) && contains id xs)
without cx_id id xs h = elim (Bool-cases (nat_beq cx_id id)) [
  | inl e ↦ let same : cx_id ≡ id = (nat_beq_iff cx_id id).0 e in rw (e, ← same) h
  | inr e ↦ rw e refl
]

not_in : (b m : Bool) → (b ≡ true → m ≡ true) → m ≡ false → b ≡ false
not_in true m h k = sym (h refl) ∙ k
not_in false m h k = refl

-- In a channel whose privileged users are members, ejecting a user, present or not, takes its
-- membership and privileges and leaves every other user what it had; where the answer is that no
-- operator is left, there is none.
pub eject-Ejected : (cx_id : ℕ) (c : Chn) → IsPrivileged c → Ejected cx_id c (eject cx_id c)
unfolding eject is_member is_op is_voiced
eject-Ejected cx_id c i = elim (Bool-cases (contains cx_id c.members)) [
  | inl e ↦
      rw (e, eject)
        (record {
          member = λ id. contains-set_remove cx_id id c.members;
          op = λ id. contains-set_remove cx_id id c.ops;
          voice = λ id. contains-set_remove cx_id id c.voices;
          last_op = λ h id. no_other cx_id id c.ops (some-injective _ _ h);
        })
  | inr e ↦
      rw (e, eject)
        (record {
          member = λ id. without cx_id id c.members e;
          op = λ id. without cx_id id c.ops (not_in _ _ (i.ops_in cx_id) e);
          voice = λ id. without cx_id id c.voices (not_in _ _ (i.voices_in cx_id) e);
          last_op = λ h id. cc;
        })
]
