-- ===== src/Network/Splits.antt =====
-- src/network.rs: what a split takes, against the servers behind the one that leaves.
use chonkline.Base.{
  ℕ, zero, suc, ◌+◌, ◌≤◌, ◌<◌, ◌↔◌, ◌≡◌, refl, ap, subst, true, false, not, ◌&&◌, ◌||◌, some,
  some-injective, List, [], ◌∷◌, ◌++◌, length, All, All-append, All-get_elem?, get_elem?, Map, Text,
  text_eq, text_beq_iff, ◌==◌, if◌then◌else◌, contains, arith, if_cases, Bool-cases, inl, inr,
  beq_refl,
}
use chonkline.Network.{
  take_users, remove_users, remove_user, split_server, split_server_detailed, collect_subtree_users,
  Network, RemoteServer, next_gone, gone_loop, gone_from, no_items, values,
}

contains-append :
    (x : Text) (xs ys : List Text) → contains x (xs ++ ys) ≡ (contains x xs || contains x ys)
contains-append x [] ys = refl
contains-append x (y ∷ xs) ys = ground (arith, contains-append x xs ys)

-- the servers that are not gone
remaining : List Text → List RemoteServer → ℕ
remaining gone [] = 0
remaining gone (s ∷ servers) =
    let rest = remaining gone servers in if contains s.sid gone then rest else suc rest

remaining-le :
    (gone : List Text) (servers : List RemoteServer) → remaining gone servers ≤ length servers
unfolding remaining
remaining-le gone [] = omega arith
remaining-le gone (s ∷ servers) = ground (arith, remaining-le gone servers)

abbrev Within : List Text → List Text → Type 0
Within gone = All (λ x. contains x gone ≡ true)

-- each server that goes is one less
remaining-round :
    (gone more : List Text) (servers : List RemoteServer)
    → Within more (next_gone gone servers)
    → remaining (gone ++ more) servers + length (next_gone gone servers) ≤ remaining gone servers
unfolding remaining
remaining-round gone more [] h = omega arith
remaining-round gone more (s ∷ servers) h =
    ground (arith, contains-append s.sid gone more, remaining-round gone more servers)

Within-cons : (x : Text) (gone xs : List Text) → Within gone xs → Within (x ∷ gone) xs
Within-cons x gone [] h = tt
Within-cons x gone (y ∷ xs) h = (ground arith, Within-cons x gone xs h.1)

Within-self : (xs : List Text) → Within xs xs
Within-self [] = tt
Within-self (x ∷ xs) = (rw (beq_refl x) refl, Within-cons x xs xs (Within-self xs))

no_items-length : (xs : List Text) → no_items xs ≡ false → 1 ≤ length xs
no_items-length [] h = cc
no_items-length (x ∷ xs) h = omega arith

no_items-nil : (xs : List Text) → no_items xs ≡ true → xs ≡ []
no_items-nil [] h = refl
no_items-nil (x ∷ xs) h = cc

gone_loop-enough :
    (f : ℕ) (servers : List RemoteServer) (gone : List Text)
    → remaining gone servers < f
    → (r : List Text) × (gone_loop f servers gone ≡ some r)
unfolding gone_loop
gone_loop-enough zero servers gone h = absurd (omega arith)
gone_loop-enough (suc f) servers gone h =
    let next = next_gone gone servers in
    elim (Bool-cases (no_items next)) [
      | inl e ↦ (gone, rw e refl)
      | inr e ↦
          let round = remaining-round gone next servers (Within-self next) in
          let (r, done) =
            gone_loop-enough f servers (gone ++ next) (omega (arith, no_items-length next e)) in
          (r, rw (e, done) refl)
    ]

-- the servers behind `sid`: itself, and each that is reached through one of them
pub data Behind (servers : List RemoteServer) (sid : Text) : Text → Type 0 where
  itself : Behind servers sid sid
  through :
      (s : RemoteServer) (i : ℕ)
      → get_elem? servers i ≡ some s
      → Behind servers sid s.via
      → Behind servers sid s.sid

All-elems {ℓ κ} :
    {A : Type ℓ} (P : A → Type κ) (xs : List A)
    → ((i : ℕ) (x : A) → get_elem? xs i ≡ some x → P x)
    → All P xs
All-elems P [] h = tt
All-elems P (x ∷ xs) h = (h 0 x refl, All-elems P xs (λ i y e. h (suc i) y e))

All-contains :
    (P : Text → Type 0) (x : Text) (xs : List Text) → All P xs → contains x xs ≡ true → P x
All-contains P x [] h e = cc
All-contains P x (y ∷ xs) h e = elim (Bool-cases (y == x)) [
  | inl same ↦ subst P ((text_beq_iff y x).0 same) h.0
  | inr other ↦ All-contains P x xs h.1 (rw other at e)
]

next_gone-All :
    (P : Text → Type 0) (gone : List Text) (servers : List RemoteServer)
    → All P gone
    → All (λ (s : RemoteServer). P s.via → P s.sid) servers
    → All P (next_gone gone servers)
next_gone-All P gone [] g h = tt
next_gone-All P gone (s ∷ servers) g h =
    if_cases (All P) (contains s.via gone && not (contains s.sid gone)) _ _
      (λ e. (h.0 (All-contains P s.via gone g (ground arith)), next_gone-All P gone servers g h.1))
      (λ _. next_gone-All P gone servers g h.1)

gone_loop-All :
    (P : Text → Type 0) (f : ℕ) (servers : List RemoteServer) (gone r : List Text)
    → All P gone
    → All (λ (s : RemoteServer). P s.via → P s.sid) servers
    → gone_loop f servers gone ≡ some r
    → All P r
unfolding gone_loop
gone_loop-All P zero servers gone r g h e = cc
gone_loop-All P (suc f) servers gone r g h e =
    let next = next_gone gone servers in
    elim (Bool-cases (no_items next)) [
      | inl last ↦ subst (All P) (some-injective _ _ (rw last at e)) g
      | inr more ↦
          gone_loop-All P f servers (gone ++ next) r
            (All-append P gone next g (next_gone-All P gone servers g h)) h (rw more at e)
    ]

-- nothing is left to go
gone_loop-done :
    (f : ℕ) (servers : List RemoteServer) (gone r : List Text)
    → gone_loop f servers gone ≡ some r
    → next_gone r servers ≡ []
unfolding gone_loop
gone_loop-done zero servers gone r e = cc
gone_loop-done (suc f) servers gone r e =
    let next = next_gone gone servers in
    elim (Bool-cases (no_items next)) [
      | inl last ↦
          subst (λ g. next_gone g servers ≡ []) (some-injective _ _ (rw last at e))
            (no_items-nil next last)
      | inr more ↦ gone_loop-done f servers (gone ++ next) r (rw more at e)
    ]

gone_loop-keeps :
    (f : ℕ) (servers : List RemoteServer) (gone r : List Text) (x : Text)
    → contains x gone ≡ true
    → gone_loop f servers gone ≡ some r
    → contains x r ≡ true
unfolding gone_loop
gone_loop-keeps zero servers gone r x h e = cc
gone_loop-keeps (suc f) servers gone r x h e =
    let next = next_gone gone servers in
    elim (Bool-cases (no_items next)) [
      | inl last ↦ subst (λ g. contains x g ≡ true) (some-injective _ _ (rw last at e)) h
      | inr more ↦
          gone_loop-keeps f servers (gone ++ next) r x (rw (contains-append x gone next, h) refl)
            (rw more at e)
    ]

next_gone-closed :
    (gone : List Text) (servers : List RemoteServer)
    → next_gone gone servers ≡ []
    → All (λ (s : RemoteServer). contains s.via gone ≡ true → contains s.sid gone ≡ true) servers
next_gone-closed gone [] h = tt
next_gone-closed gone (s ∷ servers) h =
    elim (Bool-cases (contains s.via gone && not (contains s.sid gone))) [
      | inl e ↦ let left = rw e at h in cc
      | inr e ↦ (λ k. ground arith, next_gone-closed gone servers (rw e at h))
    ]

Behind-closed :
    (servers : List RemoteServer) (sid x : Text) (gone : List Text)
    → contains sid gone ≡ true
    → next_gone gone servers ≡ []
    → Behind servers sid x
    → contains x gone ≡ true
Behind-closed servers sid x gone start done itself = start
Behind-closed servers sid x gone start done (through s i at behind) =
    All-get_elem? (λ (s : RemoteServer). contains s.via gone ≡ true → contains s.sid gone ≡ true)
      servers i (next_gone-closed gone servers done) at
      (Behind-closed servers sid s.via gone start done behind)

length-values : (m : Map Text RemoteServer) → length (values m) ≡ length m
length-values [] = refl
length-values ((k, s) ∷ m) = ap suc (length-values m)

gone_from-loop :
    (sid : Text) (net : Network)
    → gone_loop (length net.servers + 1) (values net.servers) (sid ∷ []) ≡ some (gone_from sid net)
unfolding gone_from
gone_from-loop sid net =
    let (r, done) =
      gone_loop-enough (length net.servers + 1) (values net.servers) (sid ∷ [])
        (omega (arith, remaining-le (sid ∷ []) (values net.servers), length-values net.servers)) in
    rw done refl

-- In any tree of servers, cycles included, the rounds of a split end, and they find exactly the
-- servers behind the one that leaves.
pub gone_from_iff :
    (sid : Text) (net : Network) (x : Text)
    → (contains x (gone_from sid net) ≡ true) ↔ Behind (values net.servers) sid x
gone_from_iff sid net x =
    let servers = values net.servers in
    let loop = gone_from-loop sid net in
    (
      All-contains (Behind servers sid) x (gone_from sid net) (
          gone_loop-All (Behind servers sid) _ servers (sid ∷ []) (gone_from sid net) (itself, tt)
            (All-elems (λ (s : RemoteServer). Behind servers sid s.via → Behind servers sid s.sid)
              servers (λ i s e b. through s i e b))
            loop),
      Behind-closed servers sid x (gone_from sid net)
          (gone_loop-keeps _ servers (sid ∷ []) (gone_from sid net) sid (rw (beq_refl sid) refl)
            loop)
          (gone_loop-done _ servers (sid ∷ []) (gone_from sid net) loop),
    )

take_users-remove_users :
    (uuids : List Text) (net : Network) → (take_users uuids net).0 ≡ remove_users uuids net
unfolding take_users remove_users
take_users-remove_users [] net = refl
take_users-remove_users (uuid ∷ uuids) net = take_users-remove_users uuids (remove_user uuid net).0

-- Both ways to split leave the same network.
pub split_server_detailed-split_server :
    (sid : Text) (net : Network) → (split_server_detailed sid net).0 ≡ (split_server sid net).0
unfolding split_server_detailed collect_subtree_users split_server
split_server_detailed-split_server sid net = take_users-remove_users _ _
