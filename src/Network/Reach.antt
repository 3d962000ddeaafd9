-- ===== src/Network/Reach.antt =====
-- src/network.rs: the networks that the operations make from an empty one.
use chonkline.Base.{
  ℕ, ◌^◌, ◌<◌, ◌≡◌, refl, ◌∙◌, Option-cases, inl, inr, Text, text_eq, nat_eq, none, some, List, [],
  ◌∷◌, lookup,
}
use chonkline.Network.{
  Network, RemoteServer, RemoteUser, new, next_uid, next_membid, uuid_for_local, forget_local,
  add_server, add_user, remove_user, rename_user, split_server, remove_users,
}
use chonkline.Network.Nicks.{
  IsIndexed, add_user-IsIndexed, remove_user-IsIndexed, rename_user-IsIndexed,
  split_server-IsIndexed,
}
use chonkline.Network.Locals.{IsMinted, uuid_for_local-IsMinted, forget_local-IsMinted}

-- One step for each operation that changes the network. A user is introduced under a new UUID, and
-- UIDs are minted while they last.
pub data Reaches : Network → Type 0 where
  start : (sid : Text) → Reaches (new sid)
  mint :
      {net : Network} (id : ℕ)
      → Reaches net
      → net.next_uid < 36 ^ 6
      → Reaches (uuid_for_local id net).0
  forget : {net : Network} (id : ℕ) → Reaches net → Reaches (forget_local id net)
  membership : {net : Network} → Reaches net → Reaches (next_membid net).0
  introduce : {net : Network} (s : RemoteServer) → Reaches net → Reaches (add_server s net)
  sign_on :
      {net : Network} (u : RemoteUser)
      → Reaches net
      → lookup u.uuid net.users ≡ none
      → Reaches (add_user u net)
  sign_off : {net : Network} (uuid : Text) → Reaches net → Reaches (remove_user uuid net).0
  rename :
      {net : Network} (uuid nick key : Text)
      → Reaches net
      → Reaches (rename_user uuid nick key net).0
  split : {net : Network} (sid : Text) → Reaches net → Reaches (split_server sid net).0

-- what the UUIDs of local clients hang on is the same
record SameLocals (a b : Network) : Type 0 where
  pub sid : b.sid ≡ a.sid
  pub uuids : b.local_uuids ≡ a.local_uuids
  pub counter : b.next_uid ≡ a.next_uid

unchanged : {net : Network} → SameLocals net net
unchanged = record { sid = refl; uuids = refl; counter = refl }

after : {a b c : Network} → SameLocals a b → SameLocals b c → SameLocals a c
after f g = record {
  sid = g.sid ∙ f.sid;
  uuids = g.uuids ∙ f.uuids;
  counter = g.counter ∙ f.counter;
}

IsMinted-same : {a b : Network} → SameLocals a b → IsMinted a → IsMinted b
IsMinted-same e m = record {
  spent = λ id uuid h. rw (e.sid, e.counter) (m.spent id uuid (rw e.uuids at h));
  distinct = λ i j uuid h k. m.distinct i j uuid (rw e.uuids at h) (rw e.uuids at k);
}

remove_user-locals : (uuid : Text) (net : Network) → SameLocals net (remove_user uuid net).0
unfolding remove_user
remove_user-locals uuid net = elim (Option-cases (lookup uuid net.users)) [
  | inl h ↦ rw (h, remove_user) unchanged
  | inr (u, h) ↦ rw (h, remove_user) (record { sid = refl; uuids = refl; counter = refl })
]

rename_user-locals :
    (uuid nick key : Text) (net : Network) → SameLocals net (rename_user uuid nick key net).0
unfolding rename_user
rename_user-locals uuid nick key net = elim (Option-cases (lookup uuid net.users)) [
  | inl h ↦ rw (h, rename_user) unchanged
  | inr (u, h) ↦ rw (h, rename_user) (record { sid = refl; uuids = refl; counter = refl })
]

remove_users-locals : (uuids : List Text) (net : Network) → SameLocals net (remove_users uuids net)
unfolding remove_users
remove_users-locals [] net = unchanged
remove_users-locals (uuid ∷ uuids) net =
    after (remove_user-locals uuid net) (remove_users-locals uuids (remove_user uuid net).0)

split_server-locals : (sid : Text) (net : Network) → SameLocals net (split_server sid net).0
unfolding split_server
split_server-locals sid net =
    after (record { sid = refl; uuids = refl; counter = refl }) (remove_users-locals _ _)

-- and the index of nicknames by nothing but the users and itself
uuid_for_local-IsIndexed :
    (id : ℕ) (net : Network) → IsIndexed net → IsIndexed (uuid_for_local id net).0
unfolding uuid_for_local next_uid
uuid_for_local-IsIndexed id net i = elim (Option-cases (lookup id net.local_uuids)) [
  | inl h ↦ rw (h, uuid_for_local) (record { by_uuid = i.by_uuid; by_key = i.by_key })
  | inr (uuid, h) ↦ rw (h, uuid_for_local) i
]

none_found : {A P : Type 0} {v : A} → none ≡ some v → P
none_found h = cc

new-IsConsistent : (sid : Text) → IsIndexed (new sid) × IsMinted (new sid)
unfolding lookup
new-IsConsistent sid = (
  record { by_uuid = λ k u h. none_found h; by_key = λ key uuid h. none_found h },
  record { spent = λ id uuid h. none_found h; distinct = λ i j uuid h k. none_found h },
)

-- In every network that the operations make, each user stands under its UUID, each indexed nickname
-- is that of a user that exists, and no two local clients share a UUID. Users are introduced under
-- new UUIDs, and fewer than 36^6 UIDs are minted.
pub reached-IsConsistent : (net : Network) → Reaches net → IsIndexed net × IsMinted net
unfolding next_membid forget_local add_server add_user
reached-IsConsistent _ (start sid) = new-IsConsistent sid
reached-IsConsistent _ (mint id r few) =
    let (i, m) = reached-IsConsistent _ r in
    (uuid_for_local-IsIndexed id _ i, uuid_for_local-IsMinted id _ m few)
reached-IsConsistent _ (forget id r) =
    let (i, m) = reached-IsConsistent _ r in
    (record { by_uuid = i.by_uuid; by_key = i.by_key }, forget_local-IsMinted id _ m)
reached-IsConsistent _ (membership r) =
    let (i, m) = reached-IsConsistent _ r in
    (
      record { by_uuid = i.by_uuid; by_key = i.by_key },
      record { spent = m.spent; distinct = m.distinct },
    )
reached-IsConsistent _ (introduce s r) =
    let (i, m) = reached-IsConsistent _ r in
    (
      record { by_uuid = i.by_uuid; by_key = i.by_key },
      record { spent = m.spent; distinct = m.distinct },
    )
reached-IsConsistent _ (sign_on u r new_uuid) =
    let (i, m) = reached-IsConsistent _ r in
    (add_user-IsIndexed u _ i new_uuid, record { spent = m.spent; distinct = m.distinct })
reached-IsConsistent _ (sign_off uuid r) =
    let (i, m) = reached-IsConsistent _ r in
    (remove_user-IsIndexed uuid _ i, IsMinted-same (remove_user-locals uuid _) m)
reached-IsConsistent _ (rename uuid nick key r) =
    let (i, m) = reached-IsConsistent _ r in
    (rename_user-IsIndexed uuid nick key _ i, IsMinted-same (rename_user-locals uuid nick key _) m)
reached-IsConsistent _ (split sid r) =
    let (i, m) = reached-IsConsistent _ r in
    (split_server-IsIndexed sid _ i, IsMinted-same (split_server-locals sid _) m)
