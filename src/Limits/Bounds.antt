-- ===== src/Limits/Bounds.antt =====
-- src/limits.rs: the bounds that `try_admit` enforces, and what a refusal leaves as it was.
use chonkline.Base.{
  ℕ, ◌+◌, ◌-◌, ◌≤◌, ◌<◌, ◌≡◌, ◌≢◌, refl, Bool, true, false, List, [], ◌∷◌, ◌++◌, length, Text, Map,
  lookup, insert, lookup-insert, lookup-remove, ok, err, text_eq, text_beq_iff, arith,
  length-append, All, beq_refl, text_beq, ap, All-append, Bool-cases, Option-cases, sym, inl, inr,
}
use chonkline.Limits.{
  Limits, Refusal, Source, SourceTable, try_admit, release, charge_message, active_for, entry,
  recent, one_minute,
}

-- What an outsider can read of the counters.
pub record SameCounts (s t : SourceTable) : Type 0 where
  pub same_total : s.active_total ≡ t.active_total
  pub same_active : (key : Text) → active_for s key ≡ active_for t key

-- A refused connection changes no counter, for whichever source.
pub try_admit-refused :
    (l : Limits) (key : Text) (exempt : Bool) (now : ℕ) (t : SourceTable) (why : Refusal)
    → (try_admit l key exempt now t).1 ≡ err why
    → SameCounts (try_admit l key exempt now t).0 t
unfolding try_admit active_for
try_admit-refused l key true now t why h = cc
try_admit-refused l key false now t why h = record {
  same_total = ground arith;
  same_active = λ j. ground (
    arith,
    lookup-insert key j
        (record (entry t key) { connects = recent now l.connect_window (entry t key).connects })
        t.sources,
    text_beq_iff key j,
  );
}

-- A charged message changes no counter either.
pub charge_message-SameCounts :
    (l : Limits) (key : Text) (exempt : Bool) (now : ℕ) (t : SourceTable)
    → SameCounts (charge_message l key exempt now t).0 t
unfolding charge_message active_for
charge_message-SameCounts l key true now t = record { same_total = refl; same_active = λ j. refl }
charge_message-SameCounts l key false now t = record {
  same_total = ground arith;
  same_active = λ j.
      let fresh = recent now l.message_window (entry t key).messages in
      let struck : Source = record (entry t key) {
        messages = fresh;
        violations = (entry t key).violations + 1;
      } in
      let charged : Source = record (entry t key) { messages = fresh ++ now ∷ [] } in
      ground (
        arith,
        lookup-insert key j struck t.sources,
        lookup-insert key j charged t.sources,
        text_beq_iff key j,
      );
}

-- The global ceiling: no call of the table lets the total pass `max_clients`.
pub try_admit-active_total :
    (l : Limits) (key : Text) (exempt : Bool) (now : ℕ) (t : SourceTable)
    → 0 < l.max_clients
    → t.active_total ≤ l.max_clients
    → (try_admit l key exempt now t).0.active_total ≤ l.max_clients
unfolding try_admit
try_admit-active_total l key true now t on h = h
try_admit-active_total l key false now t on h = ground arith

abbrev pub grown : Limits → Text → ℕ → SourceTable → Source
grown l key now t = record (entry t key) {
  active = (entry t key).active + 1;
  connects = recent now l.connect_window (entry t key).connects ++ now ∷ [];
}

-- What an admission that is not exempt did, and what it has checked.
pub record Admitted (l : Limits) (key : Text) (now : ℕ) (t u : SourceTable) : Type 0 where
  pub state : u ≡ record {
    sources = insert key (grown l key now t) t.sources;
    active_total = t.active_total + 1;
  }
  pub under_ceiling : 0 < l.max_clients → t.active_total < l.max_clients
  pub under_clones : 0 < l.max_clones_per_ip → (entry t key).active < l.max_clones_per_ip
  pub under_rate :
      0 < l.max_connects_per_window
      → length (recent now l.connect_window (entry t key).connects) < l.max_connects_per_window

pub try_admit-Admitted :
    (l : Limits) (key : Text) (now : ℕ) (t : SourceTable)
    → (try_admit l key false now t).1 ≡ ok tt
    → Admitted l key now t (try_admit l key false now t).0
unfolding try_admit
try_admit-Admitted l key now t h = record {
  state = ground arith;
  under_ceiling = λ on. ground arith;
  under_clones = λ on. ground arith;
  under_rate = λ on. ground arith;
}

pub entry-insert_self :
    (key : Text) (e : Source) (n : ℕ) (m : Map Text Source)
    → entry (record { sources = insert key e m; active_total = n }) key ≡ e
entry-insert_self key e n m = rw (lookup-insert key key e m, beq_refl key)

pub active_for-insert_self :
    (key : Text) (e : Source) (n : ℕ) (m : Map Text Source)
    → active_for (record { sources = insert key e m; active_total = n }) key ≡ e.active
unfolding active_for
active_for-insert_self key e n m = ap (λ (s : Source). s.active) (entry-insert_self key e n m)

-- An admitted connection that is not exempt leaves its source within the clone cap.
pub try_admit-clones :
    (l : Limits) (key : Text) (now : ℕ) (t : SourceTable)
    → 0 < l.max_clones_per_ip
    → (try_admit l key false now t).1 ≡ ok tt
    → active_for (try_admit l key false now t).0 key ≤ l.max_clones_per_ip
try_admit-clones l key now t on h =
    let a = try_admit-Admitted l key now t h in
    rw (a.state, active_for-insert_self) (omega (arith, a.under_clones on))

-- `recent` keeps only what is younger than the window, and the connection at `now` itself is.
pub recent-All :
    (now window : ℕ) (times : List ℕ) → All (λ t. now - t < window) (recent now window times)
recent-All now window [] = tt
recent-All now window (t ∷ times) = ground (arith, recent-All now window times)

-- An admitted connection that is not exempt leaves its source with at most
-- `max_connects_per_window` recorded connects, all of them inside the window.
pub try_admit-connect_rate :
    (l : Limits) (key : Text) (now : ℕ) (t : SourceTable)
    → 0 < l.max_connects_per_window
    → 0 < l.connect_window
    → (try_admit l key false now t).1 ≡ ok tt
    → (length (entry (try_admit l key false now t).0 key).connects ≤ l.max_connects_per_window)
      × All
          (λ at_time. now - at_time < l.connect_window)
          (entry (try_admit l key false now t).0 key).connects
try_admit-connect_rate l key now t on wide h =
    let a = try_admit-Admitted l key now t h in
    let kept = recent now l.connect_window (entry t key).connects in
    rw (a.state, entry-insert_self key (grown l key now t) (t.active_total + 1) t.sources)
      (
        omega (arith, a.under_rate on, length-append kept (now ∷ [])),
        All-append (λ x. now - x < l.connect_window) kept (now ∷ [])
            (recent-All now l.connect_window (entry t key).connects) (omega arith, tt),
      )

-- What one source does leaves the record of every other source as it was.
pub record Isolated (key : Text) (t u : SourceTable) : Type 0 where
  pub others : (j : Text) → j ≢ key → lookup j u.sources ≡ lookup j t.sources

ne_key : (j key : Text) → j ≢ key → text_beq key j ≡ false
ne_key j key n = elim (Bool-cases (text_beq key j)) [
  | inl e ↦ absurd (n (sym ((text_beq_iff key j).0 e)))
  | inr e ↦ e
]

Isolated-insert :
    (key : Text) (e : Source) (n : ℕ) (t : SourceTable)
    → Isolated key t (record { sources = insert key e t.sources; active_total = n })
Isolated-insert key e n t = record {
  others = λ j ne. rw (lookup-insert key j e t.sources, ne_key j key ne);
}

pub try_admit-Isolated :
    (l : Limits) (key : Text) (exempt : Bool) (now : ℕ) (t : SourceTable)
    → Isolated key t (try_admit l key exempt now t).0
unfolding try_admit
try_admit-Isolated l key true now t = Isolated-insert key _ _ t
try_admit-Isolated l key false now t = record {
  others = λ j ne.
      let pruned : Source = record (entry t key) {
        connects = recent now l.connect_window (entry t key).connects;
      } in
      ground (
        arith,
        lookup-insert key j pruned t.sources,
        lookup-insert key j (grown l key now t) t.sources,
        ne_key j key ne,
      );
}

pub release-Isolated :
    (key : Text) (exempt : Bool) (now : ℕ) (t : SourceTable)
    → Isolated key t (release key exempt now t)
unfolding release
release-Isolated key exempt now t = record {
  others = λ j ne. elim (Option-cases (lookup key t.sources)) [
    | inl e ↦ rw (e, release)
    | inr (x, e) ↦
        let kept : Source = record x {
          active = x.active - 1;
          connects = recent now one_minute x.connects;
        } in
        rw (e, release)
          (ground (
            arith,
            lookup-insert key j kept t.sources,
            lookup-remove key j t.sources,
            ne_key j key ne,
          ))
  ];
}

pub charge_message-Isolated :
    (l : Limits) (key : Text) (exempt : Bool) (now : ℕ) (t : SourceTable)
    → Isolated key t (charge_message l key exempt now t).0
unfolding charge_message
charge_message-Isolated l key true now t = record { others = λ j ne. refl }
charge_message-Isolated l key false now t = record {
  others = λ j ne.
      let fresh = recent now l.message_window (entry t key).messages in
      let struck : Source = record (entry t key) {
        messages = fresh;
        violations = (entry t key).violations + 1;
      } in
      let charged : Source = record (entry t key) { messages = fresh ++ now ∷ [] } in
      ground (
        arith,
        lookup-insert key j struck t.sources,
        lookup-insert key j charged t.sources,
        ne_key j key ne,
      );
}
