-- ===== src/Limits.antt =====
-- src/limits.rs: admission control and per-source traffic accounting. An `Instant` is a number of
-- nanoseconds, and `now.duration_since(t)`, which saturates, is the truncated `now - t`.
-- `HashMap<String, Source>` is a `Map`. The counters are below 2^64 and are plain numbers.
pub mod Bounds
pub mod Ledger
pub mod Traffic
mod Examples
use chonkline.Base.{
  ℕ, ◌+◌, ◌-◌, Bool, true, false, ◌&&◌, Option, none, some, List, [], ◌∷◌, ◌++◌, length, retain,
  any, ltb, leb, nat_beq, if◌then◌else◌, Text, Map, lookup, insert, remove, Result, ok, err,
  text_eq,
}
use chonkline.Glob.{glob_match}

pub record Limits : Type 0 where
  pub max_clones_per_ip : ℕ
  pub max_clients : ℕ
  pub max_connects_per_window : ℕ
  pub connect_window : ℕ
  pub max_messages_per_window : ℕ
  pub message_window : ℕ
  pub max_violations : ℕ
  pub exempt : List Text

pub data Refusal : Type 0 where
  too_many_clones connecting_too_fast server_full : Refusal

pub record Source : Type 0 where
  pub active : ℕ
  pub connects : List ℕ
  pub messages : List ℕ
  pub violations : ℕ

abbrev pub default_source : Source
default_source = record { active = 0; connects = []; messages = []; violations = 0 }

pub record SourceTable : Type 0 where
  pub sources : Map Text Source
  pub active_total : ℕ

abbrev pub new : SourceTable
new = record { sources = []; active_total = 0 }

unfoldable pub is_exempt : Limits → Text → Bool
is_exempt l key = any (λ e. glob_match e key) l.exempt

-- `sources.entry(key).or_default()`
abbrev pub entry_of : Option Source → Source
entry_of none = default_source
entry_of (some s) = s

abbrev pub entry : SourceTable → Text → Source
entry t key = entry_of (lookup key t.sources)

-- the times that `retain` keeps: younger than the window
abbrev pub recent : ℕ → ℕ → List ℕ → List ℕ
recent now window = retain λ t. ltb (now - t) window

-- a bound of 0 is disabled
abbrev pub reached : ℕ → ℕ → Bool
reached bound n = ltb 0 bound && leb bound n

abbrev pub one_minute : ℕ
one_minute = 60000000000

unfoldable pub try_admit :
    Limits → Text → Bool → ℕ → SourceTable → SourceTable × Result (Unit {0}) Refusal
try_admit l key true now t =
    let e = entry t key in
    (record t { sources = insert key (record e { active = e.active + 1 }) t.sources }, ok tt)
try_admit l key false now t =
    let e = record (entry t key) {
      connects = recent now l.connect_window (entry t key).connects;
    } in
    if reached l.max_clients t.active_total
    then (t, err server_full)
    else if reached l.max_clones_per_ip e.active
    then (record t { sources = insert key e t.sources }, err too_many_clones)
    else if reached l.max_connects_per_window (length e.connects)
    then (record t { sources = insert key e t.sources }, err connecting_too_fast)
    else (
      record {
        sources =
            insert key (record e { active = e.active + 1; connects = e.connects ++ now ∷ [] })
              t.sources;
        active_total = t.active_total + 1;
      },
      ok tt,
    )

-- `entry.connects.is_empty()`
abbrev pub is_empty : List ℕ → Bool
is_empty [] = true
is_empty (x ∷ xs) = false

-- The window is a fixed minute here, whatever `connect_window` is. The source's `limits` is unused.
unfoldable pub release : Text → Bool → ℕ → SourceTable → SourceTable
release key exempt now t = elim (lookup key t.sources) [
  | none ↦ t
  | some e ↦
      let e' = record e { active = e.active - 1; connects = recent now one_minute e.connects } in
      record {
        sources =
            if nat_beq e'.active 0 && is_empty e'.connects
            then remove key t.sources
            else insert key e' t.sources;
        active_total = if exempt then t.active_total else t.active_total - 1;
      }
]

unfoldable pub charge_message :
    Limits → Text → Bool → ℕ → SourceTable → SourceTable × Result (Unit {0}) Bool
charge_message l key true now t = (t, ok tt)
charge_message l key false now t =
    let e = record (entry t key) {
      messages = recent now l.message_window (entry t key).messages;
    } in
    if nat_beq l.max_messages_per_window 0
    then (t, ok tt)
    else if leb l.max_messages_per_window (length e.messages)
    then (
      record t { sources = insert key (record e { violations = e.violations + 1 }) t.sources },
      err (reached l.max_violations (e.violations + 1)),
    )
    else (
      record t { sources = insert key (record e { messages = e.messages ++ now ∷ [] }) t.sources },
      ok tt,
    )

unfoldable pub active_for : SourceTable → Text → ℕ
active_for t key = (entry t key).active
