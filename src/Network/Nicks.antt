-- ===== src/Network/Nicks.antt =====
-- src/network.rs: the index of nicknames and its consistency with the users.
use chonkline.Base.{
  ◌≡◌, refl, sym, ap, ◌∙◌, true, false, none, some, some-injective, List, [], ◌∷◌, Text, text_eq,
  ◌==◌, lookup, insert, remove, lookup-insert, lookup-remove, text_beq_iff, beq_refl, Bool-cases,
  Option-cases, inl, inr, ◌⊎◌, Map,
}
use chonkline.Network.{
  Network, RemoteUser, add_user, remove_user, rename_user, by_nick, remove_users, split_server,
  points_at, unindex,
}

-- Each user stands under its UUID, and each indexed nickname is that of a user that exists.
pub record IsIndexed (net : Network) : Type 0 where
  pub by_uuid : (k : Text) (u : RemoteUser) → lookup k net.users ≡ some u → u.uuid ≡ k
  pub by_key :
      (key uuid : Text)
      → lookup key net.nick_index ≡ some uuid
      → (u : RemoteUser) × (lookup uuid net.users ≡ some u) × (u.nick_key ≡ key)

-- what stands in a map after an insertion: the new entry, or an old one under another key
inserted :
    {V : Type 0} (k j : Text) (v w : V) (m : Map Text V)
    → lookup j (insert k v m) ≡ some w
    → (k ≡ j) × (v ≡ w) ⊎ (k == j ≡ false) × (lookup j m ≡ some w)
inserted k j v w m h = elim (Bool-cases (k == j)) [
  | inl e ↦
      inl ((text_beq_iff k j).0 e, some-injective _ _ (rw e at (sym (lookup-insert k j v m) ∙ h)))
  | inr e ↦ inr (e, rw e at (sym (lookup-insert k j v m) ∙ h))
]

-- and after a removal: an old entry under another key
remaining :
    {V : Type 0} (k j : Text) (w : V) (m : Map Text V)
    → lookup j (remove k m) ≡ some w
    → (k == j ≡ false) × (lookup j m ≡ some w)
remaining k j w m h = elim (Bool-cases (k == j)) [
  | inl e ↦ let gone : none ≡ some w = rw e at (sym (lookup-remove k j m) ∙ h) in cc
  | inr e ↦ (e, rw e at (sym (lookup-remove k j m) ∙ h))
]

-- A user whose UUID is new is added, and the index stays consistent.
pub add_user-IsIndexed :
    (u : RemoteUser) (net : Network)
    → IsIndexed net
    → lookup u.uuid net.users ≡ none
    → IsIndexed (add_user u net)
unfolding add_user
add_user-IsIndexed u net i new_uuid = record {
  by_uuid = λ k w h. elim (inserted u.uuid k u w net.users h) [
    | inl (e, same) ↦ sym (ap (λ (x : RemoteUser). x.uuid) same) ∙ e
    | inr (other, old) ↦ i.by_uuid k w old
  ];
  by_key = λ key uuid h. elim (inserted u.nick_key key u.uuid uuid net.nick_index h) [
    | inl (e, same) ↦ (u, rw (← same) (rw (lookup-insert, beq_refl u.uuid) refl), e)
    | inr (other, old) ↦
        let (w, found, keyed) = i.by_key key uuid old in
        (
          w,
          elim (Bool-cases (u.uuid == uuid)) [
            | inl e ↦
                let same : u.uuid ≡ uuid = (text_beq_iff u.uuid uuid).0 e in
                let clash : none ≡ some w = sym new_uuid ∙ (rw same found) in cc
            | inr e ↦ rw (lookup-insert, e) found
          ],
          keyed,
        )
  ];
}

-- what stands in the index without a nickname
unindexed :
    (k uuid key v : Text) (m : Map Text Text)
    → lookup key (unindex k uuid m) ≡ some v
    → (lookup key m ≡ some v) × (k ≡ key → v == uuid ≡ false)
unindexed k uuid key v m h = elim (Bool-cases (points_at (lookup k m) uuid)) [
  | inl e ↦
      let (other, old) = remaining k key v m (rw e at h) in
      (old, λ same. let t = (text_beq_iff k key).1 same in cc)
  | inr e ↦ let old : lookup key m ≡ some v = rw e at h in (old, λ same. rw (same, old) at e)
]

-- an entry that is left belongs to another user
other_owner :
    (net : Network) (uuid key v : Text) (u : RemoteUser)
    → IsIndexed net
    → lookup uuid net.users ≡ some u
    → lookup key (unindex u.nick_key uuid net.nick_index) ≡ some v
    → (w : RemoteUser) × (lookup v net.users ≡ some w) × (w.nick_key ≡ key) × (uuid == v ≡ false)
other_owner net uuid key v u i found h =
    let (old, other) = unindexed u.nick_key uuid key v net.nick_index h in
    let (w, present, keyed) = i.by_key key v old in
    (
      w,
      present,
      keyed,
      elim (Bool-cases (uuid == v)) [
        | inl e ↦
            let same : uuid ≡ v = (text_beq_iff uuid v).0 e in
            let one : u ≡ w =
              some-injective _ _
                (sym found ∙ (ap (λ (x : Text). lookup x net.users) same ∙ present)) in
            let t : v == uuid ≡ true = (text_beq_iff v uuid).1 (sym same) in
            let f = other (ap (λ (x : RemoteUser). x.nick_key) one ∙ keyed) in cc
        | inr e ↦ e
      ],
    )

-- Removing a user, known or not, keeps the index consistent.
pub remove_user-IsIndexed :
    (uuid : Text) (net : Network) → IsIndexed net → IsIndexed (remove_user uuid net).0
unfolding remove_user
remove_user-IsIndexed uuid net i = elim (Option-cases (lookup uuid net.users)) [
  | inl h ↦ rw (h, remove_user) i
  | inr (u, found) ↦
      rw (found, remove_user)
        (record {
          by_uuid = λ k w h. i.by_uuid k w (remaining uuid k w net.users h).1;
          by_key = λ key v h.
              let same = i.by_uuid uuid u found in
              let (w, present, keyed, other) =
                other_owner net uuid key v u i found (rw same at h) in
              (w, rw (lookup-remove, other) present, keyed);
        })
]

-- A user that takes a nickname keeps the index consistent, as does the change for an unknown user.
pub rename_user-IsIndexed :
    (uuid new_nick new_key : Text) (net : Network)
    → IsIndexed net
    → IsIndexed (rename_user uuid new_nick new_key net).0
unfolding rename_user
rename_user-IsIndexed uuid new_nick new_key net i = elim (Option-cases (lookup uuid net.users)) [
  | inl h ↦ rw (h, rename_user) i
  | inr (u, found) ↦
      rw (found, rename_user)
        (record {
          by_uuid = λ k w h. elim (inserted uuid k _ w net.users h) [
            | inl (e, same) ↦
                sym (ap (λ (x : RemoteUser). x.uuid) same) ∙ (i.by_uuid uuid u found ∙ e)
            | inr (other, old) ↦ i.by_uuid k w old
          ];
          by_key = λ key v h. elim (inserted new_key key uuid v _ h) [
            | inl (e, same) ↦ (
              record u { nick = new_nick; nick_key = new_key },
              rw (← same) (rw (lookup-insert, beq_refl uuid) refl),
              e,
            )
            | inr (changed, old) ↦
                let (w, present, keyed, other) = other_owner net uuid key v u i found old in
                (w, rw (lookup-insert, other) present, keyed)
          ];
        })
]

remove_users-IsIndexed :
    (uuids : List Text) (net : Network) → IsIndexed net → IsIndexed (remove_users uuids net)
unfolding remove_users
remove_users-IsIndexed [] net i = i
remove_users-IsIndexed (uuid ∷ uuids) net i =
    remove_users-IsIndexed uuids (remove_user uuid net).0 (remove_user-IsIndexed uuid net i)

-- A split, with all the users that it loses, keeps the index consistent.
pub split_server-IsIndexed :
    (sid : Text) (net : Network) → IsIndexed net → IsIndexed (split_server sid net).0
unfolding split_server
split_server-IsIndexed sid net i =
    remove_users-IsIndexed _ _ (record { by_uuid = i.by_uuid; by_key = i.by_key })

-- In a network whose index is consistent, a user found by a nickname has that nickname.
pub by_nick-keyed :
    (key : Text) (net : Network) (u : RemoteUser)
    → IsIndexed net
    → by_nick key net ≡ some u
    → u.nick_key ≡ key
unfolding by_nick
by_nick-keyed key net u i h = elim (Option-cases (lookup key net.nick_index)) [
  | inl e ↦ let absent : none ≡ some u = rw e at h in cc
  | inr (uuid, e) ↦
      let (w, present, keyed) = i.by_key key uuid e in
      let found : lookup uuid net.users ≡ some u = rw e at h in
      ap (λ (x : RemoteUser). x.nick_key) (some-injective _ _ (sym found ∙ present)) ∙ keyed
]

rename_user-found :
    (uuid new_nick new_key : Text) (net : Network) (u : RemoteUser)
    → lookup uuid net.users ≡ some u
    → (rename_user uuid new_nick new_key net).0 ≡ record net {
      users = insert uuid (record u { nick = new_nick; nick_key = new_key }) net.users;
      nick_index = insert new_key uuid (unindex u.nick_key uuid net.nick_index);
    }
unfolding rename_user
rename_user-found uuid new_nick new_key net u found = rw (found, rename_user) refl

-- A user of the network that takes a nickname is found by it, under that nickname.
pub by_nick-rename_user :
    (uuid new_nick new_key : Text) (net : Network) (u : RemoteUser)
    → lookup uuid net.users ≡ some u
    → by_nick new_key (rename_user uuid new_nick new_key net).0
      ≡ some (record u { nick = new_nick; nick_key = new_key })
unfolding by_nick
by_nick-rename_user uuid new_nick new_key net u found =
    rw
      (
        rename_user-found uuid new_nick new_key net u found,
        lookup-insert new_key new_key uuid (unindex u.nick_key uuid net.nick_index),
        beq_refl new_key,
        lookup-insert uuid uuid _ net.users,
        beq_refl uuid,
      )
      refl
