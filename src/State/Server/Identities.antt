-- ===== src/State/Server/Identities.antt =====
-- src/state.rs: registration, renaming, eviction and the tables of users.
use chonkline.Base.{
  ℕ, ◌≡◌, ◌≢◌, refl, sym, ap, subst, ◌∙◌, true, false, Option, some, Text, text_eq, nat_eq,
  nat_beq_iff, lookup, insert, remove, contains_key, Option-cases, inl, inr, find, if_both,
}
use chonkline.Base.Keys.{values, found_after, found_still}
use chonkline.State.Casemap.{norm_nick}
use chonkline.State.Client.{Cx}
use chonkline.State.Server as Server
use chonkline.State.Server.{
  ServerState, park_new, register, registered_as, evict, apply_rename, move_user, record_rename,
  find_by_id, has_id, note_connection,
}
use chonkline.State.Server.Tables.{IsTabled, insert-IsTable, remove-IsTable}

-- both tables as they were
pub record SameTables (st st' : ServerState) : Type 0 where
  pub users : st'.users ≡ st.users
  pub unreg : st'.unreg ≡ st.unreg

pub same-IsTabled : (st st' : ServerState) → SameTables st st' → IsTabled st → IsTabled st'
same-IsTabled st st' s t = record {
  table = rw s.users t.table;
  waits = rw s.unreg t.waits;
  apart = rw (s.users, s.unreg) t.apart;
}

pub new-IsTabled : (name sid : Text) → IsTabled (Server.new name sid)
unfolding lookup
new-IsTabled name sid = record {
  table = record { distinct = tt; keyed = λ k u h. cc; one_id = λ j k u v h i e. cc };
  waits = λ id u h. cc;
  apart = λ id u k v h i. cc;
}

-- a connection with an id that nobody has
pub park_new-IsTabled :
    (id : ℕ) (host real_host : Text) (cert_fp : Option Text) (st : ServerState)
    → ((k : Text) (v : Cx) → lookup k st.users ≡ some v → v.id ≢ id)
    → IsTabled st
    → IsTabled (park_new id host real_host cert_fp st)
unfolding park_new
park_new-IsTabled id host real_host cert_fp st fresh t = record {
  table = t.table;
  waits = λ i u h. elim (found_after id i _ u st.unreg h) [
    | inl (same, e) ↦ subst (λ (x : Cx). x.id ≡ i) e same
    | inr (old, d) ↦ t.waits i u old
  ];
  apart = λ i u k v h found. elim (found_after id i _ u st.unreg h) [
    | inl (same, e) ↦ rw (← same) (fresh k v found)
    | inr (old, d) ↦ t.apart i u k v old found
  ];
}

-- a connection that waited, as a user
moved-IsTabled :
    (id : ℕ) (nick user host realname : Text) (cx : Cx) (st : ServerState)
    → lookup id st.unreg ≡ some cx
    → IsTabled st
    → IsTabled (record st {
      unreg = remove id st.unreg;
      users = insert (norm_nick nick) (registered_as nick user host realname cx) st.users;
    })
moved-IsTabled id nick user host realname cx st h t = record {
  table =
      insert-IsTable (norm_nick nick) (registered_as nick user host realname cx) st.users t.table
        refl (λ k v found e. t.apart id cx k v h found (sym e ∙ t.waits id cx h));
  waits = λ i u found. t.waits i u (found_still id i u st.unreg found).0;
  apart = λ i u k v found there.
      let (old, ne) = found_still id i u st.unreg found in
      elim (found_after (norm_nick nick) k _ v st.users there) [
        | inl (same, e) ↦ λ q.
            let z : id ≡ i = sym (t.waits id cx h) ∙ ap (λ (x : Cx). x.id) e ∙ q in
            let bad : true ≡ false = sym ((nat_beq_iff id i).1 z) ∙ ne in cc
        | inr (was, d) ↦ t.apart i u k v old was
      ];
}

-- a connection that waits, put back
put_back-IsTabled :
    (id : ℕ) (cx : Cx) (st : ServerState)
    → lookup id st.unreg ≡ some cx
    → IsTabled st
    → IsTabled (record st { unreg = insert id cx (remove id st.unreg) })
put_back-IsTabled id cx st h t = record {
  table = t.table;
  waits = λ i u found. t.waits i u (before i u found);
  apart = λ i u k v found there. t.apart i u k v (before i u found) there;
}
  where
    before :
        (i : ℕ) (u : Cx)
        → lookup i (insert id cx (remove id st.unreg)) ≡ some u
        → lookup i st.unreg ≡ some u
    before i u found = elim (found_after id i cx u (remove id st.unreg) found) [
      | inl (same, e) ↦ subst (λ (j : ℕ). lookup j st.unreg ≡ some u) same (h ∙ ap some e)
      | inr (old, d) ↦ (found_still id i u st.unreg old).0
    ]

pub record Tabled {A : Type 0} (r : ServerState × A) : Type 0 where
  pub tabled : IsTabled r.0

pub register-Tabled :
    (id : ℕ) (nick user host realname : Text) (st : ServerState)
    → IsTabled st
    → Tabled (register id nick user host realname st)
unfolding register note_connection
register-Tabled id nick user host realname st t = elim (Option-cases (lookup id st.unreg)) [
  | inl n ↦ rw (n, register) (record { tabled = t })
  | inr (cx, n) ↦
      rw (n, register)
        (if_both Tabled (contains_key (norm_nick nick) st.users)
          (record { tabled = put_back-IsTabled id cx st n t })
          (record {
            tabled =
                same-IsTabled _ _ (record { users = refl; unreg = refl })
                  (moved-IsTabled id nick user host realname cx st n t);
          }))
]

pub evict-Tabled : (id : ℕ) (st : ServerState) → IsTabled st → Tabled (evict id st)
unfolding evict
evict-Tabled id st t = elim (Option-cases (lookup id st.unreg)) [
  | inr (u, n) ↦
      rw (n, evict)
        (record {
          tabled = record {
            table = t.table;
            waits = λ i v h. t.waits i v (found_still id i v st.unreg h).0;
            apart = λ i v k w h found. t.apart i v k w (found_still id i v st.unreg h).0 found;
          };
        })
  | inl n ↦ elim (Option-cases (find (has_id id) (values st.users))) [
    | inl m ↦ rw (n, m, evict) (record { tabled = t })
    | inr (u, m) ↦
        rw (n, m, evict)
          (record {
            tabled = record {
              table = remove-IsTable u.nick_key st.users t.table;
              waits = t.waits;
              apart = λ i v k w h found.
                  t.apart i v k w h (found_still u.nick_key k w st.users found).0;
            };
          })
  ]
]
