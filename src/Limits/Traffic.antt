-- ===== src/Limits/Traffic.antt =====
-- src/limits.rs: the message budget of one source over time.
use chonkline.Base.{
  ℕ, ◌+◌, ◌-◌, ◌≤◌, ◌<◌, ◌≡◌, ◌≢◌, refl, sym, ap, Bool, true, false, List, [], ◌∷◌, ◌++◌, map,
  length, ltb, nat_beq, ◌==◌, if◌then◌else◌, Text, lookup, insert, lookup-insert, beq_refl, Result,
  ok, err, text_eq, text_beq_iff, arith, Bool-cases, Option-cases, ◌⊎◌, inl, inr, ◌↔◌,
  length-append, length-retain-le, append-nil, append_assoc,
}
use chonkline.Limits.{
  Limits, Source, SourceTable, try_admit, release, charge_message, active_for, entry, recent, new,
  one_minute,
}
use chonkline.Limits.Bounds.{
  entry-insert_self, grown, Isolated, try_admit-Isolated, release-Isolated, charge_message-Isolated,
}

-- what happens to the table, and when: `try_admit`, `release` or `charge_message`, for one source
pub data Step : Type 0 where
  admits releases charges : Text → Bool → ℕ → Step

abbrev pub time_of : Step → ℕ
time_of (admits k exempt now) = now
time_of (releases k exempt now) = now
time_of (charges k exempt now) = now

unfoldable pub after : Limits → Step → SourceTable → SourceTable
after l (admits k exempt now) t = (try_admit l k exempt now t).0
after l (releases k exempt now) t = release k exempt now t
after l (charges k exempt now) t = (charge_message l k exempt now t).0

abbrev if_ok : ℕ → Result (Unit {0}) Bool → List ℕ
if_ok now (ok u) = now ∷ []
if_ok now (err closing) = []

-- the time of a message of the source that is not exempt, if it is accepted
unfoldable pub passed : Limits → Text → Step → SourceTable → List ℕ
passed l key (admits k exempt now) t = []
passed l key (releases k exempt now) t = []
passed l key (charges k true now) t = []
passed l key (charges k false now) t =
    if k == key then if_ok now (charge_message l k false now t).1 else []

-- the messages of the source that are accepted in the course of the steps
unfoldable pub accepted : Limits → Text → List Step → SourceTable → List ℕ
accepted l key [] t = []
accepted l key (e ∷ es) t = passed l key e t ++ accepted l key es (after l e t)

-- A release is of another source, or the source has a further connection.
abbrev pub Spares : Text → Step → SourceTable → Type 0
Spares key (admits k exempt now) t = Unit
Spares key (releases k exempt now) t = (k ≢ key) ⊎ (1 < active_for t k)
Spares key (charges k exempt now) t = Unit

unfoldable pub IsKept : Limits → Text → List Step → SourceTable → Type 0
unfolding after
IsKept l key [] t = Unit
IsKept l key (e ∷ es) t = Spares key e t × IsKept l key es (after l e t)

-- no time is before the one in front of it
abbrev pub Ascending : ℕ → List ℕ → Type 0
Ascending last [] = Unit
Ascending last (now ∷ times) = (last ≤ now) × Ascending now times

recent-append :
    (now window : ℕ) (xs ys : List ℕ)
    → recent now window (xs ++ ys) ≡ recent now window xs ++ recent now window ys
recent-append now window [] ys = refl
recent-append now window (x ∷ xs) ys = ground (arith, recent-append now window xs ys)

-- What an earlier look kept loses nothing that a later look would keep.
recent-recent :
    (now later window : ℕ) (xs : List ℕ)
    → now ≤ later
    → recent later window (recent now window xs) ≡ recent later window xs
recent-recent now later window [] h = refl
recent-recent now later window (x ∷ xs) h = ground (arith, recent-recent now later window xs h)

abbrev fresh : Limits → Text → ℕ → SourceTable → List ℕ
fresh l key now t = recent now l.message_window (entry t key).messages

abbrev struck : Limits → Text → ℕ → SourceTable → Source
struck l key now t = record (entry t key) {
  messages = fresh l key now t;
  violations = (entry t key).violations + 1;
}

abbrev charged : Limits → Text → ℕ → SourceTable → Source
charged l key now t = record (entry t key) { messages = fresh l key now t ++ now ∷ [] }

record Passed (l : Limits) (key : Text) (now : ℕ) (t u : SourceTable) : Type 0 where
  state : u ≡ record {
    sources = insert key (charged l key now t) t.sources;
    active_total = t.active_total;
  }
  room : length (fresh l key now t) < l.max_messages_per_window

record Dropped (l : Limits) (key : Text) (now : ℕ) (t u : SourceTable) (closing : Bool)
    : Type 0 where
  state : u ≡ record {
    sources = insert key (struck l key now t) t.sources;
    active_total = t.active_total;
  }
  verdict :
      (closing ≡ true)
      ↔ ((0 < l.max_violations) × (l.max_violations ≤ (entry t key).violations + 1))

module _ (l : Limits) (key : Text) (now : ℕ) (t : SourceTable)
    (on : 0 < l.max_messages_per_window) where
  charge_message-Passed :
      (charge_message l key false now t).1 ≡ ok tt
      → Passed l key now t (charge_message l key false now t).0
  unfolding charge_message
  charge_message-Passed h = record { state = ground arith; room = ground arith }

  charge_message-Dropped :
      (closing : Bool)
      → (charge_message l key false now t).1 ≡ err closing
      → Dropped l key now t (charge_message l key false now t).0 closing
  unfolding charge_message
  charge_message-Dropped closing h = record {
    state = ground arith;
    verdict = (λ e. ground arith, λ e. ground arith);
  }

outcome : (r : Result (Unit {0}) Bool) → (r ≡ ok tt) ⊎ ((closing : Bool) × (r ≡ err closing))
outcome (ok u) = inl refl
outcome (err b) = inr (b, refl)

module _ (l : Limits) (key : Text) where
  -- `past` is what was accepted up to now; the record of the source keeps what still counts.
  record Inv (last : ℕ) (past : List ℕ) (t : SourceTable) : Type 0 where
    bounded : length (entry t key).messages ≤ l.max_messages_per_window
    kept :
        (now : ℕ)
        → last ≤ now
        → recent now l.message_window (entry t key).messages ≡ recent now l.message_window past

  Inv-passed :
      (last x : ℕ) (past : List ℕ) (t : SourceTable)
      → 0 < l.max_messages_per_window
      → last ≤ x
      → Inv last past t
      → (charge_message l key false x t).1 ≡ ok tt
      → Inv x (past ++ x ∷ []) (charge_message l key false x t).0
  Inv-passed last x past t on h i passed =
      let p = charge_message-Passed l key x t on passed in
      rw p.state (record {
        bounded =
            rw (entry-insert_self key (charged l key x t) t.active_total t.sources)
              (omega (arith, p.room, length-append (fresh l key x t) (x ∷ [])));
        kept = λ now le. rw (
          entry-insert_self key (charged l key x t) t.active_total t.sources,
          recent-append now l.message_window (fresh l key x t) (x ∷ []),
          recent-append now l.message_window past (x ∷ []),
          recent-recent x now l.message_window (entry t key).messages le,
          i.kept now (omega arith),
        );
      })

  Inv-dropped :
      (last x : ℕ) (past : List ℕ) (t : SourceTable)
      → 0 < l.max_messages_per_window
      → last ≤ x
      → Inv last past t
      → (closing : Bool) → (charge_message l key false x t).1 ≡ err closing
      → Inv x past (charge_message l key false x t).0
  Inv-dropped last x past t on h i closing dropped =
      let d = charge_message-Dropped l key x t on closing dropped in
      rw d.state (record {
        bounded = rw (entry-insert_self key (struck l key x t) t.active_total t.sources) (
            omega (
              arith,
              i.bounded,
              length-retain-le (λ y. ltb (x - y) l.message_window) (entry t key).messages,
            ));
        kept = λ now le. rw (
          entry-insert_self key (struck l key x t) t.active_total t.sources,
          recent-recent x now l.message_window (entry t key).messages le,
          i.kept now (omega arith),
        );
      })

  Inv-same :
      (last x : ℕ) (past : List ℕ) (t u : SourceTable)
      → last ≤ x
      → (entry u key).messages ≡ (entry t key).messages
      → Inv last past t
      → Inv x past u
  Inv-same last x past t u h same i = record {
    bounded = rw same i.bounded;
    kept = λ now le. rw same (i.kept now (omega arith));
  }

  Inv-charged :
      (last x : ℕ) (past : List ℕ) (t : SourceTable)
      → 0 < l.max_messages_per_window
      → last ≤ x
      → Inv last past t
      → Inv x
          (past ++ if_ok x (charge_message l key false x t).1)
          (charge_message l key false x t).0
  Inv-charged last x past t on h i = elim (outcome (charge_message l key false x t).1) [
    | inl e ↦ rw e (Inv-passed last x past t on h i e)
    | inr (closing, e) ↦ rw (e, append-nil) (Inv-dropped last x past t on h i closing e)
  ]

messages_elsewhere :
    (k key : Text) (t u : SourceTable)
    → (k == key) ≡ false
    → Isolated k t u
    → (entry u key).messages ≡ (entry t key).messages
messages_elsewhere k key t u n i =
    let ne : key ≢ k = λ e. let same = (text_beq_iff k key).1 (sym e) in cc in
    rw (i.others key ne) refl

try_admit-messages :
    (l : Limits) (key : Text) (exempt : Bool) (now : ℕ) (t : SourceTable)
    → (entry (try_admit l key exempt now t).0 key).messages ≡ (entry t key).messages
unfolding try_admit
try_admit-messages l key true now t =
    ap (λ (s : Source). s.messages) (entry-insert_self key _ t.active_total t.sources)
try_admit-messages l key false now t =
    let pruned : Source = record (entry t key) {
      connects = recent now l.connect_window (entry t key).connects;
    } in
    ground (
      arith,
      entry-insert_self key pruned t.active_total t.sources,
      entry-insert_self key (grown l key now t) (t.active_total + 1) t.sources,
    )

-- A source that keeps a connection keeps its messages.
release-messages :
    (key : Text) (exempt : Bool) (now : ℕ) (t : SourceTable)
    → 1 < active_for t key
    → (entry (release key exempt now t) key).messages ≡ (entry t key).messages
unfolding release active_for
release-messages key exempt now t open_still = elim (Option-cases (lookup key t.sources)) [
  | inl n ↦ let no_more : 1 < 0 = rw (active_for, n) at open_still in absurd (omega arith)
  | inr (x, n) ↦
      let more : 1 < x.active = rw (active_for, n) at open_still in
      let kept : Source = record x {
        active = x.active - 1;
        connects = recent now one_minute x.connects;
      } in
      let some_left : nat_beq (x.active - 1) 0 ≡ false = ground arith in
      rw (n, release, some_left, lookup-insert key key kept t.sources, beq_refl key) refl
]

module _ (l : Limits) (key : Text) where
  Inv-step :
      (e : Step) (last : ℕ) (past : List ℕ) (t : SourceTable)
      → 0 < l.max_messages_per_window
      → last ≤ time_of e
      → Spares key e t
      → Inv l key last past t
      → Inv l key (time_of e) (past ++ passed l key e t) (after l e t)
  unfolding passed after
  Inv-step (admits k exempt now) last past t on h spares i =
      rw (append-nil) (Inv-same l key last now past t _ h (same (Bool-cases (k == key))) i)
    where
      same :
          ((k == key) ≡ true) ⊎ ((k == key) ≡ false)
          → (entry (try_admit l k exempt now t).0 key).messages ≡ (entry t key).messages
      same (inl e) = rw ((text_beq_iff k key).0 e) (try_admit-messages l key exempt now t)
      same (inr n) = messages_elsewhere k key t _ n (try_admit-Isolated l k exempt now t)
  Inv-step (releases k exempt now) last past t on h spares i =
      rw (append-nil) (Inv-same l key last now past t _ h (same (Bool-cases (k == key)) spares) i)
    where
      same :
          ((k == key) ≡ true) ⊎ ((k == key) ≡ false)
          → (k ≢ key) ⊎ (1 < active_for t k)
          → (entry (release k exempt now t) key).messages ≡ (entry t key).messages
      same (inr n) s = messages_elsewhere k key t _ n (release-Isolated k exempt now t)
      same (inl e) (inl ne) = absurd (ne ((text_beq_iff k key).0 e))
      same (inl e) (inr more) =
          let eq : k ≡ key = (text_beq_iff k key).0 e in
          rw eq (release-messages key exempt now t (rw eq at more))
  Inv-step (charges k true now) last past t on h spares i =
      rw (append-nil) (Inv-same l key last now past t _ h (unfold charge_message in refl) i)
  Inv-step (charges k false now) last past t on h spares i = elim (Bool-cases (k == key)) [
    | inl e ↦
        let eq : k ≡ key = (text_beq_iff k key).0 e in
        rw (eq, beq_refl key) (Inv-charged l key last now past t on h i)
    | inr n ↦
        rw (n, append-nil)
          (Inv-same l key last now past t _ h
            (messages_elsewhere k key t _ n (charge_message-Isolated l k false now t)) i)
  ]

  accepted-bounded :
      (last : ℕ) (past : List ℕ) (steps : List Step) (t : SourceTable) (now : ℕ)
      → 0 < l.max_messages_per_window
      → Inv l key last past t
      → IsKept l key steps t
      → Ascending last (map time_of steps ++ now ∷ [])
      → length (recent now l.message_window (past ++ accepted l key steps t))
        ≤ l.max_messages_per_window
  unfolding accepted IsKept
  accepted-bounded last past [] t now on i k a =
      rw (append-nil, ← i.kept now a.0)
        (omega (
          arith,
          i.bounded,
          length-retain-le (λ x. ltb (now - x) l.message_window) (entry t key).messages,
        ))
  accepted-bounded last past (e ∷ steps) t now on i k a =
      rw (← append_assoc past (passed l key e t)) (
        accepted-bounded (time_of e) (past ++ passed l key e t) steps (after l e t) now on
          (Inv-step e last past t on a.0 k.0 i) k.1 a.1)

-- From the empty table on, admissions, releases and messages of any sources come one after another in the
-- order of their times, and a connection of the source is released only while the source has a further one.
-- Then at no time have more than `max_messages_per_window` of the source's messages that are not exempt been
-- accepted within the window that ends there, if a bound is set.
pub accepted-bound :
    (l : Limits) (key : Text) (steps : List Step) (now : ℕ)
    → 0 < l.max_messages_per_window
    → IsKept l key steps new
    → Ascending 0 (map time_of steps ++ now ∷ [])
    → length (recent now l.message_window (accepted l key steps new)) ≤ l.max_messages_per_window
accepted-bound l key steps now on k a =
    accepted-bounded l key 0 [] steps new now on
      (unfold lookup in record { bounded = omega arith; kept = λ n h. refl }) k a

pub record Verdict (l : Limits) (key : Text) (now : ℕ) (t : SourceTable) : Type 0 where
  pub struck_once :
      (closing : Bool)
      → (charge_message l key false now t).1 ≡ err closing
      → (entry (charge_message l key false now t).0 key).violations ≡ (entry t key).violations + 1
  pub closes_at_bound :
      (closing : Bool)
      → (charge_message l key false now t).1 ≡ err closing
      → (closing ≡ true) ↔ (
          (0 < l.max_violations)
          × (l.max_violations ≤ (entry (charge_message l key false now t).0 key).violations))
  pub not_struck :
      (charge_message l key false now t).1 ≡ ok tt
      → (entry (charge_message l key false now t).0 key).violations ≡ (entry t key).violations

-- A message past the budget is one more violation of the source, and closes the connection exactly
-- when a bound on the violations is set and reached; an accepted message is no violation.
pub charge_message-Verdict :
    (l : Limits) (key : Text) (now : ℕ) (t : SourceTable)
    → 0 < l.max_messages_per_window
    → Verdict l key now t
charge_message-Verdict l key now t on = record {
  struck_once = λ closing e.
      rw ((charge_message-Dropped l key now t on closing e).state)
        (rw (entry-insert_self key (struck l key now t) t.active_total t.sources));
  closes_at_bound = λ closing e.
      let d = charge_message-Dropped l key now t on closing e in
      rw d.state
        (rw (entry-insert_self key (struck l key now t) t.active_total t.sources) d.verdict);
  not_struck = λ e.
      rw ((charge_message-Passed l key now t on e).state)
        (rw (entry-insert_self key (charged l key now t) t.active_total t.sources));
}
