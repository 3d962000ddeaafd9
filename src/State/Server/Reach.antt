-- ===== src/State/Server/Reach.antt =====
-- src/state.rs: the states that come about by connections that arrive, register, change their nickname
-- and leave.
use chonkline.Base.{
  ℕ, ◌≡◌, ◌≢◌, refl, sym, subst, ◌∙◌, true, false, Option, none, some, ◌==◌, Text, text_eq, nat_eq,
  nat_beq_iff, text_beq_iff, Map, lookup, remove, lookup-remove, beq_refl, Option-cases, inl, inr,
  find, if_both,
}
use chonkline.Base.Keys.{values, found_after, found_still, find-values}
use chonkline.State.Casemap.{norm_nick}
use chonkline.State.Client.{Cx}
use chonkline.State.Server as Server
use chonkline.State.Server.{
  ServerState, park_new, register, evict, apply_rename, move_user, record_rename, find_by_id,
  has_id, trim_history, eject_user, drop_empty_channels, chan_or_create,
}
use chonkline.Cmds.Lookups.{find_by_id_lem}
use chonkline.State.Server.Tables.{IsTable, IsTabled, insert-IsTable, remove-IsTable}
use chonkline.State.Server.Identities.{
  SameTables, same-IsTabled, new-IsTabled, park_new-IsTabled, register-Tabled, evict-Tabled,
}

record_rename-SameTables :
    (old_key new_key : Text) (cx_id now : ℕ) (st : ServerState)
    → SameTables st (record_rename old_key new_key cx_id now st)
unfolding record_rename
record_rename-SameTables old_key new_key cx_id now st =
    if_both (SameTables st) (old_key == new_key) (record { users = refl; unreg = refl })
      (record { users = refl; unreg = refl })

move_user-IsTabled :
    (old_key display : Text) (st : ServerState)
    → IsTabled st
    → IsTabled (move_user old_key display st)
move_user-IsTabled old_key display st t = elim (Option-cases (lookup old_key st.users)) [
  | inl n ↦ rw (n, move_user) t
  | inr (cx, n) ↦
      let key = norm_nick display in
      let cx' = record cx { nick = display; nick_key = key } in
      rw (n, move_user)
        (record {
          table =
              insert-IsTable key cx' (remove old_key st.users)
                (remove-IsTable old_key st.users t.table) refl
                (λ k v found e.
                  let (was, ne) = found_still old_key k v st.users found in
                  let same = t.table.one_id old_key k cx v n was e in
                  let bad : true ≡ false = sym ((text_beq_iff old_key k).1 same) ∙ ne in cc);
          waits = t.waits;
          apart = λ i u k v h found.
              elim (found_after key k cx' v (remove old_key st.users) found) [
                | inl (same, e) ↦ subst (λ (x : Cx). x.id ≢ i) e (t.apart i u old_key cx h n)
                | inr (was, d) ↦ t.apart i u k v h (found_still old_key k v st.users was).0
              ];
        })
]

pub apply_rename-IsTabled :
    (id : ℕ) (display : Text) (now : ℕ) (st : ServerState)
    → IsTabled st
    → IsTabled (apply_rename id display now st)
unfolding apply_rename
apply_rename-IsTabled id display now st t = elim (Option-cases (find_by_id id st)) [
  | inl n ↦ rw (n, apply_rename) t
  | inr (u, n) ↦
      rw (n, apply_rename)
        (if_both IsTabled (u.nick_key == norm_nick display) t (
          move_user-IsTabled u.nick_key display _ (
            same-IsTabled st _ (record_rename-SameTables u.nick_key (norm_nick display) id now st)
              t)))
]

pub data Reached : ServerState → Type 0 where
  start : (name sid : Text) → Reached (Server.new name sid)
  parks :
      (id : ℕ) (host real_host : Text) (cert_fp : Option Text) {st : ServerState}
      → ((k : Text) (v : Cx) → lookup k st.users ≡ some v → v.id ≢ id)
      → Reached st
      → Reached (park_new id host real_host cert_fp st)
  registers :
      (id : ℕ) (nick user host realname : Text) {st : ServerState}
      → Reached st
      → Reached (register id nick user host realname st).0
  renames :
      (id : ℕ) (display : Text) (now : ℕ) {st : ServerState}
      → Reached st
      → Reached (apply_rename id display now st)
  evicts : (id : ℕ) {st : ServerState} → Reached st → Reached (evict id st).0
  ejects : (id : ℕ) {st : ServerState} → Reached st → Reached (eject_user id st).0
  drops : {st : ServerState} → Reached st → Reached (drop_empty_channels st)

-- In every state that is reached by connections with new ids, registrations, renames, evictions and the
-- cleaning of channels, every user stands under the key of its nickname, no two users have one id, a
-- connection that waits stands under its own id, and no user has that id as well.
pub reached-IsTabled : {st : ServerState} → Reached st → IsTabled st
unfolding eject_user drop_empty_channels
reached-IsTabled (start name sid) = new-IsTabled name sid
reached-IsTabled (parks id host real_host cert_fp {st} fresh r) =
    park_new-IsTabled id host real_host cert_fp st fresh (reached-IsTabled r)
reached-IsTabled (registers id nick user host realname {st} r) =
    (register-Tabled id nick user host realname st (reached-IsTabled r)).tabled
reached-IsTabled (renames id display now {st} r) =
    apply_rename-IsTabled id display now st (reached-IsTabled r)
reached-IsTabled (evicts id {st} r) = (evict-Tabled id st (reached-IsTabled r)).tabled
reached-IsTabled (ejects id {st} r) =
    same-IsTabled st _ (record { users = refl; unreg = refl }) (reached-IsTabled r)
reached-IsTabled (drops {st} r) =
    same-IsTabled st _ (record { users = refl; unreg = refl }) (reached-IsTabled r)

none_with :
    (id : ℕ) (m : Map Text Cx)
    → IsTable m
    → ((k : Text) (v : Cx) → lookup k m ≡ some v → v.id ≢ id)
    → find (has_id id) (values m) ≡ none
none_with id m t nobody = elim (Option-cases (find (has_id id) (values m))) [
  | inl n ↦ n
  | inr (u, n) ↦
      let (k, found, passed) = find-values (has_id id) m u t.distinct n in
      absurd (nobody k u found ((nat_beq_iff u.id id).0 passed))
]

-- In a state in which every user stands under the key of its nickname, no two users have one id, and a
-- connection that waits stands under its own id, which no user has as well: an evicted id is found no more,
-- whether it waited, was registered, or neither.
pub find_by_id-evict :
    (id : ℕ) (st : ServerState) → IsTabled st → find_by_id id (evict id st).0 ≡ none
unfolding evict
find_by_id-evict id st t =
    rw (find_by_id_lem id (evict id st).0) (elim (Option-cases (lookup id st.unreg)) [
      | inr (u, n) ↦
          rw (n, evict, lookup-remove id id st.unreg, beq_refl id)
            (none_with id st.users t.table (λ k v found. t.apart id u k v n found))
      | inl n ↦ elim (Option-cases (find (has_id id) (values st.users))) [
        | inl m ↦ rw (n, m, evict) (rw (n, m) refl)
        | inr (u, m) ↦
            let (k0, at_key, passed) = find-values (has_id id) st.users u t.table.distinct m in
            rw (n, m, evict)
              (rw n (
                none_with id (remove u.nick_key st.users)
                  (remove-IsTable u.nick_key st.users t.table)
                  (λ k v found e.
                    let (was, ne) = found_still u.nick_key k v st.users found in
                    let mine : u.id ≡ id = (nat_beq_iff u.id id).0 passed in
                    let same : k0 ≡ k = t.table.one_id k0 k u v at_key was (mine ∙ sym e) in
                    let bad : true ≡ false =
                      sym ((text_beq_iff u.nick_key k).1 (t.table.keyed k0 u at_key ∙ same)) ∙ ne in
                    cc)))
      ]
    ])
