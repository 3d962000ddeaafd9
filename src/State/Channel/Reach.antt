-- ===== src/State/Channel/Reach.antt =====
-- src/state.rs: the channels that the operations make, and the invariant of membership.
use chonkline.Base.{
  ℕ, ◌≡◌, sym, ◌∙◌, Bool, true, false, not, ◌&&◌, ◌||◌, Option, List, nat_beq, nat_beq_iff, Text,
  nat_eq, contains, arith, Bool-cases, inl, inr, if_both,
}
use chonkline.State.Sets.{set_insert, set_remove, contains-set_insert, contains-set_remove}
use chonkline.State.Channel.{Chn, new, is_member, set_member_prefix, clear_all_modes}
use chonkline.State.Channel.Edits.{eject, admit_as_op, admit_plain, grant, revoke_op, revoke_voice}
use chonkline.State.Channel.Members.{IsPrivileged}

-- One step for each operation on who is in a channel and with what privilege; the two that give a
-- privilege are called for members.
pub data Reaches : Chn → Type 0 where
  create : (display : Text) (now : ℕ) → Reaches (new display now)
  join_as_op : {c : Chn} (id : ℕ) → Reaches c → Reaches (admit_as_op id c)
  join : {c : Chn} (id : ℕ) → Reaches c → Reaches (admit_plain id c)
  promote :
      {c : Chn} (id : ℕ) (op : Bool) → Reaches c → is_member id c ≡ true → Reaches (grant id op c)
  demote : {c : Chn} (id : ℕ) → Reaches c → Reaches (revoke_op id c).0
  silence : {c : Chn} (id : ℕ) → Reaches c → Reaches (revoke_voice id c).0
  prefix_on :
      {c : Chn} (ch id : ℕ)
      → Reaches c
      → is_member id c ≡ true
      → Reaches (set_member_prefix ch id true c)
  prefix_off : {c : Chn} (ch id : ℕ) → Reaches c → Reaches (set_member_prefix ch id false c)
  leave : {c : Chn} (id : ℕ) → Reaches c → Reaches (eject id c).0
  clear : {c : Chn} → Reaches c → Reaches (clear_all_modes c)

-- every element of one set is in the other
record Subset (xs ys : List ℕ) : Type 0 where
  pub included : (id : ℕ) → contains id xs ≡ true → contains id ys ≡ true

wider : (x : ℕ) {xs ys : List ℕ} → Subset xs ys → Subset xs (set_insert x ys)
wider x {xs} {ys} s = record {
  included =
      λ id h. let old = s.included id h in rw (contains-set_insert x id ys, old) (ground arith);
}

both_wider : (x : ℕ) {xs ys : List ℕ} → Subset xs ys → Subset (set_insert x xs) (set_insert x ys)
both_wider x {xs} {ys} s = record {
  included = λ id h.
      let h' : (nat_beq x id || contains id xs) ≡ true = sym (contains-set_insert x id xs) ∙ h in
      rw (contains-set_insert x id ys) (ground (arith, h', s.included id));
}

-- a member is given the privilege
member_wider :
    (x : ℕ) {xs ys : List ℕ} → contains x ys ≡ true → Subset xs ys → Subset (set_insert x xs) ys
member_wider x {xs} {ys} m s = record {
  included = λ id h.
      let h' : (nat_beq x id || contains id xs) ≡ true = sym (contains-set_insert x id xs) ∙ h in
      elim (Bool-cases (nat_beq x id)) [
        | inl e ↦ let same : x ≡ id = (nat_beq_iff x id).0 e in rw (← same) m
        | inr e ↦ s.included id (rw e at h')
      ];
}

narrower : (x : ℕ) {xs ys : List ℕ} → Subset xs ys → Subset (set_remove x xs) ys
narrower x {xs} {ys} s = record {
  included = λ id h.
      let h' : (not (nat_beq x id) && contains id xs) ≡ true =
        sym (contains-set_remove x id xs) ∙ h in
      s.included id (ground (arith, h'));
}

both_narrower : (x : ℕ) {xs ys : List ℕ} → Subset xs ys → Subset (set_remove x xs) (set_remove x ys)
both_narrower x {xs} {ys} s = record {
  included = λ id h.
      let h' : (not (nat_beq x id) && contains id xs) ≡ true =
        sym (contains-set_remove x id xs) ∙ h in
      rw (contains-set_remove x id ys) (ground (arith, h', s.included id));
}

-- the invariant by its two inclusions
record Ranked (c : Chn) : Type 0 where
  pub ops : Subset c.ops c.members
  pub voices : Subset c.voices c.members

reached-Ranked : (c : Chn) → Reaches c → Ranked c
unfolding is_member admit_as_op admit_plain grant revoke_op revoke_voice set_member_prefix eject
    clear_all_modes
reached-Ranked _ (create display now) = record {
  ops = record { included = λ id h. cc };
  voices = record { included = λ id h. cc };
}
reached-Ranked _ (join_as_op id r) =
    let k = reached-Ranked _ r in record { ops = both_wider id k.ops; voices = wider id k.voices }
reached-Ranked _ (join id r) =
    let k = reached-Ranked _ r in record { ops = wider id k.ops; voices = wider id k.voices }
reached-Ranked _ (promote id true r m) =
    let k = reached-Ranked _ r in record { ops = member_wider id m k.ops; voices = k.voices }
reached-Ranked _ (promote id false r m) =
    let k = reached-Ranked _ r in record { ops = k.ops; voices = member_wider id m k.voices }
reached-Ranked _ (demote id r) =
    let k = reached-Ranked _ r in record { ops = narrower id k.ops; voices = k.voices }
reached-Ranked _ (silence id r) =
    let k = reached-Ranked _ r in record { ops = k.ops; voices = narrower id k.voices }
reached-Ranked _ (prefix_on {c} ch id r m) =
    let k = reached-Ranked _ r in
    if_both Ranked (nat_beq ch b'o') (record { ops = member_wider id m k.ops; voices = k.voices })
      (record { ops = k.ops; voices = member_wider id m k.voices })
reached-Ranked _ (prefix_off {c} ch id r) =
    let k = reached-Ranked _ r in
    if_both Ranked (nat_beq ch b'o') (record { ops = narrower id k.ops; voices = k.voices })
      (record { ops = k.ops; voices = narrower id k.voices })
reached-Ranked _ (leave {c} id r) =
    let k = reached-Ranked _ r in
    if_both (λ (t : Chn × Option Bool). Ranked t.0) (not (contains id c.members)) k
      (record { ops = both_narrower id k.ops; voices = both_narrower id k.voices })
reached-Ranked _ (clear r) = record {
  ops = record { included = λ id h. cc };
  voices = record { included = λ id h. cc };
}

-- In every channel that the operations make, with privileges given to members, operators and voiced
-- users are members.
pub reached-IsPrivileged : (c : Chn) → Reaches c → IsPrivileged c
reached-IsPrivileged c r =
    let k = reached-Ranked c r in record { ops_in = k.ops.included; voices_in = k.voices.included }
