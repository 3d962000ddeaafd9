-- ===== src/Network/Locals.antt =====
-- src/network.rs: the UUIDs of local clients, their stability and their distinctness.
use chonkline.Base.{
  ℕ, ◌+◌, ◌^◌, ◌%◌, ◌<◌, ◌≡◌, refl, sym, ap, ◌∙◌, none, some, some-injective, [], ◌∷◌, ◌++◌, Text,
  nat_eq, ◌==◌, drop, length, lookup, insert, remove, lookup-insert, lookup-remove, nat_beq_iff,
  beq_refl, Bool-cases, Option-cases, inl, inr, ◌⊎◌, arith, Map,
}
use chonkline.Network.{Network, uid_slots, uuid_for_local, forget_local, next_uid}
use chonkline.Network.Uids.{uid_of-injective}

-- Each local UUID is our SID and a counter's UID, from a counter that is spent, and no two clients
-- have the same.
pub record IsMinted (net : Network) : Type 0 where
  pub spent :
      (id : ℕ) (uuid : Text)
      → lookup id net.local_uuids ≡ some uuid
      → (c : ℕ) × (c < net.next_uid) × (uuid ≡ net.sid ++ uid_slots 6 c [])
  pub distinct :
      (i j : ℕ) (uuid : Text)
      → lookup i net.local_uuids ≡ some uuid
      → lookup j net.local_uuids ≡ some uuid
      → i ≡ j

drop-append : (xs ys : Text) → drop (length xs) (xs ++ ys) ≡ ys
drop-append [] ys = refl
drop-append (x ∷ xs) ys = drop-append xs ys

append-injective : (xs ys zs : Text) → xs ++ ys ≡ xs ++ zs → ys ≡ zs
append-injective xs ys zs e = sym (drop-append xs ys) ∙ ap (drop (length xs)) e ∙ drop-append xs zs

-- the session behind a mint
minted : ℕ → Network → Network
minted id net = record net {
  next_uid = (net.next_uid + 1) % 2 ^ 64;
  local_uuids = insert id (net.sid ++ uid_slots 6 net.next_uid []) net.local_uuids;
}

uuid_for_local-new :
    (id : ℕ) (net : Network)
    → lookup id net.local_uuids ≡ none
    → uuid_for_local id net ≡ (minted id net, net.sid ++ uid_slots 6 net.next_uid [])
unfolding uuid_for_local next_uid minted
uuid_for_local-new id net h = rw (h, uuid_for_local) refl

uuid_for_local-known :
    (id : ℕ) (net : Network) (uuid : Text)
    → lookup id net.local_uuids ≡ some uuid
    → uuid_for_local id net ≡ (net, uuid)
unfolding uuid_for_local
uuid_for_local-known id net uuid h = rw (h, uuid_for_local) refl

-- A client that has been given a UUID is given the same again, and nothing is spent.
pub uuid_for_local_idem :
    (id : ℕ) (net : Network) → uuid_for_local id (uuid_for_local id net).0 ≡ uuid_for_local id net
uuid_for_local_idem id net = elim (Option-cases (lookup id net.local_uuids)) [
  | inl h ↦
      let uuid = net.sid ++ uid_slots 6 net.next_uid [] in
      let stands : lookup id (minted id net).local_uuids ≡ some uuid =
        unfold minted in rw (lookup-insert, beq_refl id) refl in
      rw (uuid_for_local-new id net h) (uuid_for_local-known id (minted id net) uuid stands)
  | inr (uuid, h) ↦ rw (uuid_for_local-known id net uuid h, uuid_for_local-known id net uuid h) refl
]

inserted :
    (k j : ℕ) (v w : Text) (m : Map ℕ Text)
    → lookup j (insert k v m) ≡ some w
    → (k ≡ j) × (v ≡ w) ⊎ (lookup j m ≡ some w)
inserted k j v w m h = elim (Bool-cases (k == j)) [
  | inl e ↦
      inl ((nat_beq_iff k j).0 e, some-injective _ _ (rw e at (sym (lookup-insert k j v m) ∙ h)))
  | inr e ↦ inr (rw e at (sym (lookup-insert k j v m) ∙ h))
]

minted-IsMinted :
    (id : ℕ) (net : Network) → IsMinted net → net.next_uid < 36 ^ 6 → IsMinted (minted id net)
unfolding minted
minted-IsMinted id net m h =
    let uuid = net.sid ++ uid_slots 6 net.next_uid [] in
    let next : (net.next_uid + 1) % 2 ^ 64 ≡ net.next_uid + 1 = omega arith in
    let unspent : (j : ℕ) (w : Text) → lookup j net.local_uuids ≡ some w → uuid ≡ w → id ≡ j =
      λ j w old same.
        let (c, less, made) = m.spent j w old in
        let one : net.next_uid ≡ c =
          uid_of-injective net.next_uid c h (omega arith)
            (append-injective net.sid _ _ (same ∙ made)) in
        absurd (omega arith) in
    record {
      spent = λ j w e. elim (inserted id j uuid w net.local_uuids e) [
        | inl (_, same) ↦ (net.next_uid, omega (arith, next), sym same)
        | inr old ↦ let (c, less, made) = m.spent j w old in (c, omega (arith, next), made)
      ];
      distinct = λ i j w e f. elim (inserted id i uuid w net.local_uuids e) [
        | inl (here, same) ↦ elim (inserted id j uuid w net.local_uuids f) [
          | inl (there, _) ↦ sym here ∙ there
          | inr old ↦ sym here ∙ unspent j w old same
        ]
        | inr old ↦ elim (inserted id j uuid w net.local_uuids f) [
          | inl (there, same) ↦ sym (unspent i w old same) ∙ there
          | inr other ↦ m.distinct i j w old other
        ]
      ];
    }

-- While fewer than 36^6 UIDs are spent, giving a client its UUID keeps all UUIDs different.
pub uuid_for_local-IsMinted :
    (id : ℕ) (net : Network)
    → IsMinted net
    → net.next_uid < 36 ^ 6
    → IsMinted (uuid_for_local id net).0
uuid_for_local-IsMinted id net m h = elim (Option-cases (lookup id net.local_uuids)) [
  | inl e ↦ rw (uuid_for_local-new id net e) (minted-IsMinted id net m h)
  | inr (uuid, e) ↦ rw (uuid_for_local-known id net uuid e) m
]

left : (k j : ℕ) (w : Text) (m : Map ℕ Text) → lookup j (remove k m) ≡ some w → lookup j m ≡ some w
left k j w m h = elim (Bool-cases (k == j)) [
  | inl e ↦ let gone : none ≡ some w = rw e at (sym (lookup-remove k j m) ∙ h) in cc
  | inr e ↦ rw e at (sym (lookup-remove k j m) ∙ h)
]

-- Forgetting a client keeps the UUIDs of the others different.
pub forget_local-IsMinted : (id : ℕ) (net : Network) → IsMinted net → IsMinted (forget_local id net)
unfolding forget_local
forget_local-IsMinted id net m = record {
  spent = λ j w e. m.spent j w (left id j w net.local_uuids e);
  distinct =
      λ i j w e f. m.distinct i j w (left id i w net.local_uuids e) (left id j w net.local_uuids f);
}
