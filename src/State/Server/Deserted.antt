-- ===== src/State/Server/Deserted.antt =====
-- src/state.rs: `drop_empty_channels`.
use chonkline.Base.{
  ◌≡◌, refl, sym, ap, subst, ◌∙◌, Bool, true, false, Option, none, some, List, [], ◌∷◌, ◌==◌,
  if◌then◌else◌, ℕ, map, retain, All, ◌↔◌, Text, text_eq, text_beq_iff, contains, Map, lookup,
  remove, lookup-remove, Bool-cases, inl, inr, arith,
}
use chonkline.Base.Keys.{IsDistinct, values, remove-IsDistinct}
use chonkline.Network.{Network, RemoteUser, on_channel, members_of}
use chonkline.State.Channel.{Chn}
use chonkline.State.Server.{
  ServerState, no_ids, no_texts, is_deserted, deserted_keys, remove_keys, drop_empty_channels,
}

lookup-remove_keys :
    (k : Text) (ks : List Text) (m : Map Text Chn)
    → lookup k (remove_keys ks m) ≡ (if contains k ks then none else lookup k m)
lookup-remove_keys k [] m = refl
lookup-remove_keys k (j ∷ ks) m =
    lookup-remove_keys k ks (remove j m) ∙ rw (lookup-remove j k m) (ground arith)

remove_keys-IsDistinct :
    (ks : List Text) (m : Map Text Chn) → IsDistinct m → IsDistinct (remove_keys ks m)
remove_keys-IsDistinct [] m d = d
remove_keys-IsDistinct (k ∷ ks) m d =
    remove_keys-IsDistinct ks (remove k m) (remove-IsDistinct k m d)

abbrev pub deserted_at : Network → Text → Option Chn → Bool
deserted_at net k none = false
deserted_at net k (some c) = is_deserted net k c

contains-deserted_keys :
    (net : Network) (k : Text) (m : Map Text Chn)
    → IsDistinct m
    → contains k (deserted_keys net m) ≡ deserted_at net k (lookup k m)
unfolding lookup
contains-deserted_keys net k [] d = refl
contains-deserted_keys net k ((j, c) ∷ m) d = elim (Bool-cases (j == k)) [
  | inl e ↦
      let same : j ≡ k = (text_beq_iff j k).0 e in
      let absent : lookup k m ≡ none = subst (λ (i : Text). lookup i m ≡ none) same d.0 in
      let rest : contains k (deserted_keys net m) ≡ false =
        contains-deserted_keys net k m d.1 ∙ rw absent refl in
      rw e (at_front e rest (ap (λ (i : Text). is_deserted net i c) same))
  | inr e ↦ rw e (behind e (contains-deserted_keys net k m d.1))
]
  where
    at_front :
        (j == k) ≡ true
        → contains k (deserted_keys net m) ≡ false
        → is_deserted net j c ≡ is_deserted net k c
        → contains k (deserted_keys net ((j, c) ∷ m)) ≡ is_deserted net k c
    at_front e rest same = elim (Bool-cases (is_deserted net j c)) [
      | inl t ↦ rw t (rw e (sym (sym same ∙ t)))
      | inr f ↦ rw f (rest ∙ sym (sym same ∙ f))
    ]

    behind :
        (j == k) ≡ false
        → contains k (deserted_keys net m) ≡ deserted_at net k (lookup k m)
        → contains k (deserted_keys net ((j, c) ∷ m)) ≡ deserted_at net k (lookup k m)
    behind e rest = elim (Bool-cases (is_deserted net j c)) [
      | inl t ↦ rw t (rw e rest)
      | inr f ↦ rw f rest
    ]

pub lookup-drop_empty_channels :
    (k : Text) (st : ServerState)
    → IsDistinct st.chans
    → lookup k (drop_empty_channels st).chans
      ≡ (if deserted_at st.network k (lookup k st.chans) then none else lookup k st.chans)
unfolding drop_empty_channels
lookup-drop_empty_channels k st d =
    lookup-remove_keys k (deserted_keys st.network st.chans) st.chans
    ∙ rw (contains-deserted_keys st.network k st.chans d) refl

-- nobody is in the channel, here or on another server
abbrev pub IsVacant : Network → Text → Chn → Type 0
IsVacant net k c = (c.members ≡ []) × All (λ u. contains k u.chans ≡ false) (values net.users)

no_ids_iff : (ids : List ℕ) → (no_ids ids ≡ true) ↔ (ids ≡ [])
no_ids_iff [] = (λ h. refl, λ h. refl)
no_ids_iff (i ∷ ids) = (λ h. cc, λ h. cc)

no_texts_iff :
    (k : Text) (us : List RemoteUser)
    → (no_texts (map (λ u. u.uuid) (retain (on_channel k) us)) ≡ true)
      ↔ All (λ u. contains k u.chans ≡ false) us
no_texts_iff k [] = (λ h. tt, λ h. refl)
no_texts_iff k (u ∷ us) = elim (Bool-cases (contains k u.chans)) [
  | inl e ↦ rw e (λ h. cc, λ h. cc)
  | inr e ↦ rw e (λ h. (refl, (no_texts_iff k us).0 h), λ h. (no_texts_iff k us).1 h.1)
]

is_deserted_iff :
    (net : Network) (k : Text) (c : Chn) → (is_deserted net k c ≡ true) ↔ IsVacant net k c
unfolding members_of
is_deserted_iff net k c =
    let ids = no_ids_iff c.members in
    let texts = no_texts_iff k (values net.users) in
    (
      λ h. (ids.0 (ground arith), texts.0 (ground arith)),
      λ v. ground (arith, ids.1 v.0, texts.1 v.1),
    )

-- In a state whose channels stand under different keys: a channel is dropped exactly when it has no member
-- here and no user of another server lists it; else it stays as it is; and where there was no channel,
-- there is none afterwards.
pub drop_empty_channels-IsVacant :
    (k : Text) (st : ServerState)
    → IsDistinct st.chans
    → let after = lookup k (drop_empty_channels st).chans in
      ((c : Chn)
        → lookup k st.chans ≡ some c
        → (IsVacant st.network k c → after ≡ none) × (¬ IsVacant st.network k c → after ≡ some c))
      × (lookup k st.chans ≡ none → after ≡ none)
drop_empty_channels-IsVacant k st d = (
  λ c e.
      let i = is_deserted_iff st.network k c in
      (
        λ v. rw (lookup-drop_empty_channels k st d, e, i.1 v) refl,
        λ n. elim (Bool-cases (is_deserted st.network k c)) [
          | inl t ↦ absurd (n (i.0 t))
          | inr f ↦ rw (lookup-drop_empty_channels k st d, e, f) refl
        ],
      ),
  λ e. rw (lookup-drop_empty_channels k st d, e) refl,
)

pub drop_empty_channels-IsDistinct :
    (st : ServerState) → IsDistinct st.chans → IsDistinct (drop_empty_channels st).chans
unfolding drop_empty_channels
drop_empty_channels-IsDistinct st d =
    remove_keys-IsDistinct (deserted_keys st.network st.chans) st.chans d
