-- ===== src/Cmds/Lookups.antt =====
-- src/state.rs: what is found after a change by id, and after a change of a channel.
use chonkline.Base.{
  ℕ, ◌≡◌, refl, subst, Bool, Option, none, some, [], ◌∷◌, find, nat_beq, nat_beq_iff, ◌==◌,
  if◌then◌else◌, Text, text_eq, nat_eq, Map, lookup, insert, lookup-insert, Bool-cases,
  Option-cases, inl, inr, arith, text_beq_iff,
}
use chonkline.Base.Keys.{values, IsDistinct, insert-IsDistinct}
use chonkline.State.Casemap.{norm_nick}
use chonkline.State.Client.{Cx}
use chonkline.State.Channel.{Chn}
use chonkline.State.Server.{ServerState, find_by_id, change_by_id, change_if, has_id, change_chan}

abbrev pub map_some {ℓ} : {A B : Type ℓ} → (A → B) → Option A → Option B
map_some f none = none
map_some f (some a) = some (f a)

abbrev pub changed_at : Bool → (Cx → Cx) → Option Cx → Option Cx → Option Cx
changed_at hit f own other = if hit then map_some f own else other

find-change_if :
    (id asked : ℕ) (f : Cx → Cx) (m : Map Text Cx)
    → ((u : Cx) → (f u).id ≡ u.id)
    → find (has_id asked) (values (change_if (has_id id) f m))
      ≡ changed_at
          (nat_beq id asked)
          f
          (find (has_id id) (values m))
          (find (has_id asked) (values m))
find-change_if id asked f [] keep = ground arith
find-change_if id asked f ((k, u) ∷ m) keep =
    ground (arith, keep u, find-change_if id asked f m keep)

abbrev pub or_else : Option Cx → Option Cx → Option Cx
or_else none other = other
or_else (some u) other = some u

pub find_by_id_lem :
    (id : ℕ) (st : ServerState)
    → find_by_id id st ≡ or_else (lookup id st.unreg) (find (has_id id) (values st.users))
unfolding find_by_id
find_by_id_lem id st = elim (Option-cases (lookup id st.unreg)) [
  | inl n ↦ rw (n, find_by_id) refl
  | inr (u, n) ↦ rw (n, find_by_id) refl
]

-- a change that keeps the id is a change of what is found under that id, and of nothing else
pub find_by_id-change_by_id :
    (id asked : ℕ) (f : Cx → Cx) (st : ServerState)
    → ((u : Cx) → (f u).id ≡ u.id)
    → find_by_id asked (change_by_id id f st)
      ≡ changed_at (nat_beq id asked) f (find_by_id id st) (find_by_id asked st)
unfolding change_by_id
find_by_id-change_by_id id asked f st keep =
    rw (find_by_id_lem id st, find_by_id_lem asked st)
      (elim (Option-cases (lookup id st.unreg)) [
        | inl n ↦
            rw
              (
                n,
                change_by_id,
                find_by_id_lem asked (record st { users = change_if (has_id id) f st.users }),
                find-change_if id asked f st.users keep,
              )
              (users n)
        | inr (u, n) ↦
            rw
              (
                n,
                change_by_id,
                find_by_id_lem asked (record st { unreg = insert id (f u) st.unreg }),
                lookup-insert id asked (f u) st.unreg,
              )
              (waiting u n)
      ])
  where
    users :
        lookup id st.unreg ≡ none
        → or_else (lookup asked st.unreg) (
            changed_at
              (nat_beq id asked)
              f
              (find (has_id id) (values st.users))
              (find (has_id asked) (values st.users)))
          ≡ changed_at
              (nat_beq id asked)
              f
              (or_else none (find (has_id id) (values st.users)))
              (or_else (lookup asked st.unreg) (find (has_id asked) (values st.users)))
    users n = elim (Bool-cases (nat_beq id asked)) [
      | inl e ↦
          let absent : lookup asked st.unreg ≡ none =
            subst (λ (i : ℕ). lookup i st.unreg ≡ none) ((nat_beq_iff id asked).0 e) n in
          rw (e, absent) refl
      | inr e ↦ rw e refl
    ]

    waiting :
        (u : Cx)
        → lookup id st.unreg ≡ some u
        → or_else
            (if id == asked then some (f u) else lookup asked st.unreg)
            (find (has_id asked) (values st.users))
          ≡ changed_at
              (nat_beq id asked)
              f
              (or_else (some u) (find (has_id id) (values st.users)))
              (or_else (lookup asked st.unreg) (find (has_id asked) (values st.users)))
    waiting u n = elim (Bool-cases (nat_beq id asked)) [ inl e ↦ rw e refl | inr e ↦ rw e refl ]

pub chans-change_by_id :
    (id : ℕ) (f : Cx → Cx) (st : ServerState) → (change_by_id id f st).chans ≡ st.chans
unfolding change_by_id
chans-change_by_id id f st = elim (Option-cases (lookup id st.unreg)) [
  | inl n ↦ rw (n, change_by_id) refl
  | inr (u, n) ↦ rw (n, change_by_id) refl
]

pub find_by_id-change_chan :
    (id : ℕ) (key : Text) (f : Chn → Chn) (st : ServerState)
    → find_by_id id (change_chan key f st) ≡ find_by_id id st
unfolding change_chan find_by_id
find_by_id-change_chan id key f st = elim (Option-cases (lookup (norm_nick key) st.chans)) [
  | inl n ↦ rw (n, change_chan) refl
  | inr (c, n) ↦ rw (n, change_chan) refl
]

abbrev pub chan_changed_at : Bool → (Chn → Chn) → Option Chn → Option Chn → Option Chn
chan_changed_at hit f own other = if hit then map_some f own else other

pub lookup-change_chan :
    (key asked : Text) (f : Chn → Chn) (st : ServerState)
    → lookup asked (change_chan key f st).chans
      ≡ chan_changed_at
          (norm_nick key == asked)
          f
          (lookup (norm_nick key) st.chans)
          (lookup asked st.chans)
unfolding change_chan
lookup-change_chan key asked f st = elim (Option-cases (lookup (norm_nick key) st.chans)) [
  | inl n ↦
      rw (n, change_chan)
        (elim (Bool-cases (norm_nick key == asked)) [
          | inl e ↦ rw e (
              subst (λ (k : Text). lookup k st.chans ≡ none)
                ((text_beq_iff (norm_nick key) asked).0 e) n)
          | inr e ↦ rw e refl
        ])
  | inr (c, n) ↦ rw (n, change_chan, lookup-insert (norm_nick key) asked (f c) st.chans) refl
]

pub change_chan-IsDistinct :
    (key : Text) (f : Chn → Chn) (st : ServerState)
    → IsDistinct st.chans
    → IsDistinct (change_chan key f st).chans
unfolding change_chan
change_chan-IsDistinct key f st d = elim (Option-cases (lookup (norm_nick key) st.chans)) [
  | inl n ↦ rw (n, change_chan) d
  | inr (c, n) ↦ rw (n, change_chan) (insert-IsDistinct (norm_nick key) (f c) st.chans d)
]
