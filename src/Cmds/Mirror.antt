-- ===== src/Cmds/Mirror.antt =====
-- src/cmds.rs and src/state.rs: a user's list of channels against the channels' lists of members.
use chonkline.Base.{
  ℕ, ◌≡◌, refl, sym, subst, ◌∙◌, Bool, true, false, ◌||◌, Option, none, some, List, [], ◌∷◌, ◌++◌,
  nat_beq, nat_beq_iff, ◌==◌, if◌then◌else◌, Text, text_eq, nat_eq, contains, lookup, Bool-cases,
  inl, inr, arith, text_beq_iff,
}
use chonkline.Base.Keys.{IsDistinct}
use chonkline.State.Casemap.{norm_nick}
use chonkline.State.Sets.{contains-set_insert, contains-set_remove}
use chonkline.State.Client.{Cx, text_insert, text_remove}
use chonkline.State.Channel.{Chn}
use chonkline.State.Channel.Edits.{admit_plain, consume_invite, eject}
use chonkline.State.Server.{ServerState, find_by_id, change_by_id, change_chan}
use chonkline.Cmds.Announce.{note_channel}
use chonkline.Cmds.Leave.{forget_channel, ejected}
use chonkline.Cmds.Lookups.{
  changed_at, chan_changed_at, find_by_id-change_by_id, chans-change_by_id, find_by_id-change_chan,
  lookup-change_chan, change_chan-IsDistinct,
}

abbrev pub lists : Text → Option Cx → Bool
lists key none = false
lists key (some u) = contains key u.chans

abbrev pub seats : ℕ → Option Chn → Bool
seats id none = false
seats id (some c) = contains id c.members

-- a user lists exactly the channels that hold the user, and no channel stands twice in the table
pub record IsMirrored (st : ServerState) : Type 0 where
  pub mirrored :
      (id : ℕ) (key : Text) → lists key (find_by_id id st) ≡ seats id (lookup key st.chans)
  pub distinct : IsDistinct st.chans

abbrev pub set_bit : Bool → Bool → Bool → Bool
set_bit hit on old = if hit then on else old

-- a change of one user's list that puts a channel in or out
pub record Lists (norm : Text) (on : Bool) (g : Cx → Cx) : Type 0 where
  pub keeps_id : (u : Cx) → (g u).id ≡ u.id
  pub turns :
      (u : Cx) (key : Text)
      → contains key (g u).chans ≡ set_bit (norm == key) on (contains key u.chans)

-- a change of one channel's members that puts a user in or out
pub record Seats (id : ℕ) (on : Bool) (f : Chn → Chn) : Type 0 where
  pub seats_turn :
      (c : Chn) (other : ℕ)
      → contains other (f c).members ≡ set_bit (nat_beq id other) on (contains other c.members)

both :
    (id : ℕ) (norm : Text) (on : Bool) (g : Cx → Cx) (f : Chn → Chn) (st : ServerState) (u : Cx)
    (c : Chn)
    → Lists norm on g
    → Seats id on f
    → find_by_id id st ≡ some u
    → lookup norm st.chans ≡ some c
    → IsMirrored st
    → (other : ℕ) (key : Text)
    → lists key (changed_at (nat_beq id other) g (some u) (find_by_id other st))
      ≡ seats other (chan_changed_at (norm == key) f (some c) (lookup key st.chans))
both id norm on g f st u c l s hu hc w other key = elim (Bool-cases (nat_beq id other)) [
  | inl e ↦ elim (Bool-cases (norm == key)) [
    | inl n ↦ rw (e, n) (l.turns u key ∙ rw n (sym (s.seats_turn c other ∙ rw e refl)))
    | inr n ↦
        let mine : find_by_id other st ≡ some u =
          subst (λ (i : ℕ). find_by_id i st ≡ some u) ((nat_beq_iff id other).0 e) hu in
        rw (e, n) (l.turns u key ∙ rw n (rw mine at (w.mirrored other key)))
  ]
  | inr e ↦ elim (Bool-cases (norm == key)) [
    | inl n ↦
        let here : lookup key st.chans ≡ some c =
          subst (λ (k : Text). lookup k st.chans ≡ some c) ((text_beq_iff norm key).0 n) hc in
        rw (e, n) ((rw here at (w.mirrored other key)) ∙ sym (s.seats_turn c other ∙ rw e refl))
    | inr n ↦ rw (e, n) (w.mirrored other key)
  ]
]

-- one user changed by `g` and one channel by `f`
pub record Edited (id : ℕ) (norm : Text) (g : Cx → Cx) (f : Chn → Chn) (st st' : ServerState)
    : Type 0 where
  pub found :
      (other : ℕ)
      → find_by_id other st'
        ≡ changed_at (nat_beq id other) g (find_by_id id st) (find_by_id other st)
  pub looked_up :
      (key : Text)
      → lookup key st'.chans
        ≡ chan_changed_at (norm == key) f (lookup norm st.chans) (lookup key st.chans)
  pub still_distinct : IsDistinct st.chans → IsDistinct st'.chans

pub user_first-Edited :
    (id : ℕ) (norm : Text) (g : Cx → Cx) (f : Chn → Chn) (st : ServerState)
    → norm_nick norm ≡ norm
    → ((u : Cx) → (g u).id ≡ u.id)
    → Edited id norm g f st (change_chan norm f (change_by_id id g st))
user_first-Edited id norm g f st fold keep =
    let st' = change_by_id id g st in
    record {
      found = λ other.
          find_by_id-change_chan other norm f st' ∙ find_by_id-change_by_id id other g st keep;
      looked_up =
          λ key. rw (lookup-change_chan norm key f st', chans-change_by_id id g st, fold) refl;
      still_distinct = λ d. change_chan-IsDistinct norm f st' (rw (chans-change_by_id id g st) d);
    }

pub chan_first-Edited :
    (id : ℕ) (norm : Text) (g : Cx → Cx) (f : Chn → Chn) (st : ServerState)
    → norm_nick norm ≡ norm
    → ((u : Cx) → (g u).id ≡ u.id)
    → Edited id norm g f st (change_by_id id g (change_chan norm f st))
chan_first-Edited id norm g f st fold keep =
    let st' = change_chan norm f st in
    record {
      found = λ other.
          rw
            (
              find_by_id-change_by_id id other g st' keep,
              find_by_id-change_chan id norm f st,
              find_by_id-change_chan other norm f st,
            )
            refl;
      looked_up =
          λ key. rw (chans-change_by_id id g st', lookup-change_chan norm key f st, fold) refl;
      still_distinct = λ d. rw (chans-change_by_id id g st') (change_chan-IsDistinct norm f st d);
    }

-- both changes at once keep the two sides in step
pub Edited-IsMirrored :
    (id : ℕ) (norm : Text) (on : Bool) (g : Cx → Cx) (f : Chn → Chn) (st st' : ServerState) (u : Cx)
    (c : Chn)
    → Edited id norm g f st st'
    → Lists norm on g
    → Seats id on f
    → find_by_id id st ≡ some u
    → lookup norm st.chans ≡ some c
    → IsMirrored st
    → IsMirrored st'
Edited-IsMirrored id norm on g f st st' u c e l s hu hc w = record {
  mirrored = λ other key.
      rw (e.found other, e.looked_up key, hu, hc)
        (both id norm on g f st u c l s hu hc w other key);
  distinct = e.still_distinct w.distinct;
}

contains-append :
    (x y : Text) (xs : List Text) → contains x (xs ++ y ∷ []) ≡ (contains x xs || y == x)
contains-append x y [] = ground arith
contains-append x y (z ∷ xs) = ground (arith, contains-append x y xs)

contains-text_insert :
    (norm key : Text) (xs : List Text)
    → contains key (text_insert norm xs) ≡ set_bit (norm == key) true (contains key xs)
unfolding text_insert
contains-text_insert norm key xs = elim (Bool-cases (contains norm xs)) [
  | inl h ↦
      rw (h, text_insert)
        (elim (Bool-cases (norm == key)) [
          | inl e ↦
              rw e (subst (λ (k : Text). contains k xs ≡ true) ((text_beq_iff norm key).0 e) h)
          | inr e ↦ rw e refl
        ])
  | inr h ↦ rw (h, text_insert) (contains-append key norm xs ∙ ground arith)
]

contains-text_remove :
    (norm key : Text) (xs : List Text)
    → contains key (text_remove norm xs) ≡ set_bit (norm == key) false (contains key xs)
unfolding text_remove
contains-text_remove norm key [] = ground arith
contains-text_remove norm key (x ∷ xs) = ground (
  arith,
  contains-text_remove norm key xs,
  text_beq_iff x norm,
  text_beq_iff norm key,
  text_beq_iff x key,
)

contains-ejected :
    (id other : ℕ) (c : Chn)
    → contains other (ejected id c).members
      ≡ set_bit (nat_beq id other) false (contains other c.members)
unfolding eject
contains-ejected id other c = elim (Bool-cases (contains id c.members)) [
  | inl h ↦ rw (h, ejected, eject) (contains-set_remove id other c.members ∙ ground arith)
  | inr h ↦
      rw (h, ejected, eject)
        (elim (Bool-cases (nat_beq id other)) [
          | inl e ↦
              rw e (subst (λ (i : ℕ). contains i c.members ≡ false) ((nat_beq_iff id other).0 e) h)
          | inr e ↦ rw e refl
        ])
]

pub note_channel-Lists : (norm : Text) → Lists norm true (note_channel norm)
note_channel-Lists norm = record {
  keeps_id = λ u. refl;
  turns = λ u key. contains-text_insert norm key u.chans;
}

pub forget_channel-Lists : (norm : Text) → Lists norm false (forget_channel norm)
forget_channel-Lists norm = record {
  keeps_id = λ u. refl;
  turns = λ u key. contains-text_remove norm key u.chans;
}

pub admitted-Seats : (id : ℕ) → Seats id true (λ c. consume_invite id (admit_plain id c))
unfolding admit_plain consume_invite
admitted-Seats id = record {
  seats_turn = λ c other. contains-set_insert id other c.members ∙ ground arith;
}

pub ejected-Seats : (id : ℕ) → Seats id false (ejected id)
ejected-Seats id = record { seats_turn = λ c other. contains-ejected id other c }
