-- ===== src/State/Server/Tables.antt =====
-- src/state.rs: the table of users by nickname and the table of connections that have not registered.
use chonkline.Base.{
  ℕ, ◌≡◌, ◌≢◌, sym, ap, subst, ◌∙◌, some, Text, text_eq, nat_eq, Map, lookup, insert, remove, inl,
  inr,
}
use chonkline.Base.Keys.{IsDistinct, insert-IsDistinct, remove-IsDistinct, found_after, found_still}
use chonkline.State.Client.{Cx}
use chonkline.State.Server.{ServerState}

-- every user stands under its nickname's key, and no two users have one id
pub record IsTable (m : Map Text Cx) : Type 0 where
  pub distinct : IsDistinct m
  pub keyed : (k : Text) (u : Cx) → lookup k m ≡ some u → u.nick_key ≡ k
  pub one_id :
      (j k : Text) (u v : Cx) → lookup j m ≡ some u → lookup k m ≡ some v → u.id ≡ v.id → j ≡ k

pub insert-IsTable :
    (key : Text) (u : Cx) (m : Map Text Cx)
    → IsTable m
    → u.nick_key ≡ key
    → ((k : Text) (v : Cx) → lookup k m ≡ some v → u.id ≢ v.id)
    → IsTable (insert key u m)
insert-IsTable key u m t named apart = record {
  distinct = insert-IsDistinct key u m t.distinct;
  keyed = λ k v h. elim (found_after key k u v m h) [
    | inl (same, e) ↦ subst (λ (x : Cx). x.nick_key ≡ k) e (named ∙ same)
    | inr (old, d) ↦ t.keyed k v old
  ];
  one_id = λ j k v w h i e. elim (found_after key j u v m h) [
    | inl (same, ev) ↦ elim (found_after key k u w m i) [
      | inl (also, ew) ↦ sym same ∙ also
      | inr (old, d) ↦ absurd (apart k w old (ap (λ (x : Cx). x.id) ev ∙ e))
    ]
    | inr (old, d) ↦ elim (found_after key k u w m i) [
      | inl (also, ew) ↦ absurd (apart j v old (ap (λ (x : Cx). x.id) ew ∙ sym e))
      | inr (older, d2) ↦ t.one_id j k v w old older e
    ]
  ];
}

pub remove-IsTable : (key : Text) (m : Map Text Cx) → IsTable m → IsTable (remove key m)
remove-IsTable key m t = record {
  distinct = remove-IsDistinct key m t.distinct;
  keyed = λ k v h. t.keyed k v (found_still key k v m h).0;
  one_id =
      λ j k v w h i e. t.one_id j k v w (found_still key j v m h).0 (found_still key k w m i).0 e;
}

-- and no connection that waits has the id of a user
pub record IsTabled (st : ServerState) : Type 0 where
  pub table : IsTable st.users
  pub waits : (id : ℕ) (u : Cx) → lookup id st.unreg ≡ some u → u.id ≡ id
  pub apart :
      (id : ℕ) (u : Cx) (k : Text) (v : Cx)
      → lookup id st.unreg ≡ some u
      → lookup k st.users ≡ some v
      → v.id ≢ id
