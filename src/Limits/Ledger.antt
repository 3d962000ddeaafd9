-- ===== src/Limits/Ledger.antt =====
-- src/limits.rs: the abstract view of the table: the list of the slots that are held. Each admission adds one and
-- each `release` gives one back. src/ops.rs releases the slot where a session has ended; after an admission
-- on the TLS port it returns without a release if the peer closes before it sends a byte, and the slot
-- stays held.
use chonkline.Base.{
  ℕ, zero, suc, ◌+◌, ◌-◌, ◌≤◌, ◌<◌, ◌≡◌, refl, Bool, true, false, not, none, some, List, [], ◌∷◌,
  get_elem?, Text, lookup, insert, lookup-insert, lookup-remove, Result, ok, err, text_eq,
  text_beq_iff, text_beq, arith, if◌then◌else◌, Option-cases, inl, inr, ◌∙◌, ◌⊎◌,
}
use chonkline.Limits.{
  Limits, Refusal, Source, SourceTable, try_admit, release, charge_message, active_for, entry,
  recent, new, one_minute,
}
use chonkline.Limits.Bounds.{
  grown, try_admit-Admitted, try_admit-refused, try_admit-active_total, charge_message-SameCounts,
}

pub record Slot : Type 0 where
  pub key : Text
  pub is_free : Bool

pub record World : Type 0 where
  pub table : SourceTable
  pub held : List Slot

pub data Event : Type 0 where
  connects : Text → Bool → ℕ → Event
  closes : ℕ → ℕ → Event
  says : Text → Bool → ℕ → Event

remove_at : ℕ → List Slot → List Slot
remove_at i [] = []
remove_at zero (s ∷ held) = held
remove_at (suc i) (s ∷ held) = s ∷ remove_at i held

taken : Text → Bool → List Slot → Result (Unit {0}) Refusal → List Slot
taken key exempt held (ok u) = record { key = key; is_free = exempt } ∷ held
taken key exempt held (err why) = held

-- `closes i now` is the end of the connection that holds slot `i`, if there is one.
unfoldable pub step : Limits → World → Event → World
unfolding remove_at taken
step l w (connects key exempt now) =
    let (t, r) = try_admit l key exempt now w.table in
    record { table = t; held = taken key exempt w.held r }
step l w (closes i now) = elim (get_elem? w.held i) [
  | none ↦ w
  | some s ↦ record { table = release s.key s.is_free now w.table; held = remove_at i w.held }
]
step l w (says key exempt now) = record w { table = (charge_message l key exempt now w.table).0 }

unfoldable pub run : Limits → World → List Event → World
run l w [] = w
run l w (e ∷ es) = run l (step l w e) es

abbrev pub start : World
start = record { table = new; held = [] }

abbrev one_if : Bool → ℕ
one_if true = 1
one_if false = 0

-- the slots that a source holds
unfoldable pub holds : Text → List Slot → ℕ
holds k [] = 0
holds k (s ∷ held) = one_if (text_beq s.key k) + holds k held

-- the slots that count against the ceiling
unfoldable pub counted : List Slot → ℕ
counted [] = 0
counted (s ∷ held) = one_if (not s.is_free) + counted held

pub record Agrees (w : World) : Type 0 where
  pub totals : w.table.active_total ≡ counted w.held
  pub sources : (k : Text) → active_for w.table k ≡ holds k w.held

holds-remove_at :
    (i : ℕ) (held : List Slot) (s : Slot) (k : Text)
    → get_elem? held i ≡ some s
    → holds k held ≡ one_if (text_beq s.key k) + holds k (remove_at i held)
unfolding holds remove_at
holds-remove_at i [] s k h = cc
holds-remove_at zero (x ∷ held) s k h = ground arith
holds-remove_at (suc i) (x ∷ held) s k h = omega (arith, holds-remove_at i held s k h)

counted-remove_at :
    (i : ℕ) (held : List Slot) (s : Slot)
    → get_elem? held i ≡ some s
    → counted held ≡ one_if (not s.is_free) + counted (remove_at i held)
unfolding counted remove_at
counted-remove_at i [] s h = cc
counted-remove_at zero (x ∷ held) s h = ground arith
counted-remove_at (suc i) (x ∷ held) s h = omega (arith, counted-remove_at i held s h)

active_for-insert :
    (key k : Text) (e : Source) (n : ℕ) (t : SourceTable)
    → active_for (record { sources = insert key e t.sources; active_total = n }) k
      ≡ (if text_beq key k then e.active else active_for t k)
unfolding active_for
active_for-insert key k e n t = ground (arith, lookup-insert key k e t.sources)

active_for_self :
    (t : SourceTable) (key k : Text) → text_beq key k ≡ true → active_for t k ≡ (entry t key).active
unfolding active_for
active_for_self t key k h = rw ((text_beq_iff key k).0 h)

outcome : (r : Result (Unit {0}) Refusal) → (r ≡ ok tt) ⊎ ((why : Refusal) × (r ≡ err why))
outcome (ok u) = inl refl
outcome (err why) = inr (why, refl)

-- An admitted slot is one more, and a refused one none.
connects-Agrees :
    (l : Limits) (w : World) (key : Text) (exempt : Bool) (now : ℕ)
    → Agrees w
    → Agrees (step l w (connects key exempt now))
connects-Agrees l w key true now a =
    unfold step try_admit counted holds in
    record {
      totals = omega (arith, a.totals);
      sources = λ k.
          let e = record (entry w.table key) { active = (entry w.table key).active + 1 } in
          ground (
            arith,
            active_for-insert key k e w.table.active_total w.table,
            active_for_self w.table key k,
            a.sources k,
          );
    }
connects-Agrees l w key false now a = elim (outcome (try_admit l key false now w.table).1) [
  | inl admitted ↦
      let did = try_admit-Admitted l key now w.table admitted in
      unfold step counted holds in
      record {
        totals = rw (did.state, admitted) (omega (arith, a.totals));
        sources = λ k.
            rw (did.state, admitted)
              (ground (
                arith,
                active_for-insert key k (grown l key now w.table) (w.table.active_total + 1)
                    w.table,
                active_for_self w.table key k,
                a.sources k,
              ));
      }
  | inr (why, refused) ↦
      let same = try_admit-refused l key false now w.table why refused in
      unfold step in
      record {
        totals = rw refused (same.same_total ∙ a.totals);
        sources = λ k. rw refused (same.same_active k ∙ a.sources k);
      }
]

-- The slot of a source that holds one is given back.
release-counts :
    (t : SourceTable) (key : Text) (exempt : Bool) (now : ℕ)
    → 0 < active_for t key
    → ((release key exempt now t).active_total ≡ t.active_total - one_if (not exempt))
      × ((k : Text)
          → active_for (release key exempt now t) k ≡ active_for t k - one_if (text_beq key k))
unfolding release active_for
release-counts t key exempt now h = elim (Option-cases (lookup key t.sources)) [
  | inl e ↦ absurd (ground (arith, e))
  | inr (x, e) ↦
      let kept : Source = record x {
        active = x.active - 1;
        connects = recent now one_minute x.connects;
      } in
      (
        rw (e, release) (ground arith),
        λ k.
            rw (e, release)
              (ground (
                arith,
                e,
                lookup-insert key k kept t.sources,
                lookup-remove key k t.sources,
                text_beq_iff key k,
              )),
      )
]

own : (k : Text) → one_if (text_beq k k) ≡ 1
own k = rw ((text_beq_iff k k).1 refl)

release-active_total :
    (key : Text) (exempt : Bool) (now : ℕ) (t : SourceTable)
    → (release key exempt now t).active_total ≤ t.active_total
unfolding release
release-active_total key exempt now t = ground arith

closes-Agrees : (l : Limits) (w : World) (i now : ℕ) → Agrees w → Agrees (step l w (closes i now))
unfolding step
closes-Agrees l w i now a = elim (Option-cases (get_elem? w.held i)) [
  | inl e ↦ rw (e, step) a
  | inr (s, e) ↦
      let held_one : 0 < active_for w.table s.key =
        rw a.sources (omega (arith, holds-remove_at i w.held s s.key e, own s.key)) in
      let (total, each) = release-counts w.table s.key s.is_free now held_one in
      rw (e, step)
        (record {
          totals = omega (arith, total, counted-remove_at i w.held s e, a.totals);
          sources = λ k. omega (arith, each k, holds-remove_at i w.held s k e, a.sources k);
        })
]

says-Agrees :
    (l : Limits) (w : World) (key : Text) (exempt : Bool) (now : ℕ)
    → Agrees w
    → Agrees (step l w (says key exempt now))
unfolding step
says-Agrees l w key exempt now a =
    let same = charge_message-SameCounts l key exempt now w.table in
    record { totals = same.same_total ∙ a.totals; sources = λ k. same.same_active k ∙ a.sources k }

step-Agrees : (l : Limits) (w : World) (e : Event) → Agrees w → Agrees (step l w e)
step-Agrees l w (connects key exempt now) a = connects-Agrees l w key exempt now a
step-Agrees l w (closes i now) a = closes-Agrees l w i now a
step-Agrees l w (says key exempt now) a = says-Agrees l w key exempt now a

run_from-Agrees : (l : Limits) (w : World) (es : List Event) → Agrees w → Agrees (run l w es)
unfolding run
run_from-Agrees l w [] a = a
run_from-Agrees l w (e ∷ es) a = run_from-Agrees l (step l w e) es (step-Agrees l w e a)

-- Whatever connects, closes and speaks, and in whatever order: each source's counter is the number
-- of slots it holds, and the total is the number of slots held that are not exempt.
pub run-Agrees : (l : Limits) (es : List Event) → Agrees (run l start es)
unfolding active_for holds counted lookup
run-Agrees l es = run_from-Agrees l start es (record { totals = refl; sources = λ k. refl })

-- A call of the table, one after another, never lets the total pass the ceiling.
step-active_total :
    (l : Limits) (w : World) (e : Event)
    → 0 < l.max_clients
    → w.table.active_total ≤ l.max_clients
    → (step l w e).table.active_total ≤ l.max_clients
unfolding step
step-active_total l w (connects key exempt now) on h =
    try_admit-active_total l key exempt now w.table on h
step-active_total l w (closes i now) on h = elim (Option-cases (get_elem? w.held i)) [
  | inl e ↦ rw (e, step) h
  | inr (s, e) ↦ rw (e, step) (omega (arith, release-active_total s.key s.is_free now w.table))
]
step-active_total l w (says key exempt now) on h =
    rw ((charge_message-SameCounts l key exempt now w.table).same_total) h

run_from-active_total :
    (l : Limits) (w : World) (es : List Event)
    → 0 < l.max_clients
    → w.table.active_total ≤ l.max_clients
    → (run l w es).table.active_total ≤ l.max_clients
unfolding run
run_from-active_total l w [] on h = h
run_from-active_total l w (e ∷ es) on h =
    run_from-active_total l (step l w e) es on (step-active_total l w e on h)

-- After any history, the slots held that are not exempt are within the global ceiling, if one is
-- set.
pub run-ceiling :
    (l : Limits) (es : List Event)
    → 0 < l.max_clients
    → counted (run l start es).held ≤ l.max_clients
run-ceiling l es on =
    rw (← (run-Agrees l es).totals) (run_from-active_total l start es on (omega arith))
