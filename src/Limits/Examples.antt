-- ===== src/Limits/Examples.antt =====
-- The tests of src/limits.rs, and the theorems at concrete tables.
use chonkline.Base.{
  ◌≤◌, ◌≡◌, refl, true, false, List, [], ◌∷◌, codes, arith, Text, ok, err, lookup, insert, remove,
  inr, length, text_beq,
}
use chonkline.Limits.{
  Limits, too_many_clones, SourceTable, new, try_admit, release, charge_message, active_for, recent,
}
use chonkline.Limits.Ledger.{
  Event, connects, closes, World, start, run, Agrees, run-Agrees, run-ceiling, counted,
}
use chonkline.Limits.Traffic.{
  Step, admits, releases, charges, after, passed, accepted, IsKept, accepted-bound,
}

abbrev limits : Limits
limits = record {
  max_clones_per_ip = 1;
  max_clients = 10;
  max_connects_per_window = 5;
  connect_window = 60000000000;
  max_messages_per_window = 2;
  message_window = 10000000000;
  max_violations = 1;
  exempt = codes "10.2.*" ∷ [];
}

abbrev host : Text
host = codes "h"

abbrev one_held : SourceTable
one_held = (try_admit limits host false 5 new).0

first_admitted : (try_admit limits host false 5 new).1 ≡ ok tt
unfolding try_admit lookup
first_admitted = refl

second_refused : (try_admit limits host false 6 one_held).1 ≡ err too_many_clones
unfolding try_admit lookup insert text_beq
second_refused = refl

abbrev history : List Event
history =
    connects host false 5
    ∷ connects host false 6
    ∷ connects (codes "10.2.0.1") true 7
    ∷ closes 1 8
    ∷ []

run-Agrees_example : Agrees (run limits start history)
run-Agrees_example = run-Agrees limits history

run-ceiling_example : counted (World.held (run limits start history)) ≤ 10
run-ceiling_example = run-ceiling limits history (omega arith)

abbrev steps : List Step
steps =
    admits host true 1
    ∷ charges host false 1
    ∷ admits host true 2
    ∷ charges host false 2
    ∷ releases host true 2
    ∷ charges (codes "g") false 3
    ∷ charges host false 3
    ∷ []

two_of_three : accepted limits host steps new ≡ 1 ∷ 2 ∷ []
unfolding accepted passed after try_admit release charge_message lookup insert text_beq
two_of_three = refl

steps-IsKept : IsKept limits host steps new
unfolding IsKept after try_admit release charge_message lookup insert text_beq active_for
steps-IsKept = (tt, (tt, (tt, (tt, (inr (omega arith), (tt, (tt, tt)))))))

accepted-bound_example : length (recent 4 10000000000 (accepted limits host steps new)) ≤ 2
accepted-bound_example = accepted-bound limits host steps 4 (omega arith) steps-IsKept (omega arith)

-- A source whose one connection closes more than a minute after it connected is forgotten with its messages:
-- it sends two messages, closes, connects again, and sends a third within the ten seconds of the window.
budget_starts_again :
    accepted limits host
      (admits host false 0
        ∷ charges host false 61000000000
        ∷ charges host false 61000000001
        ∷ releases host false 61000000002
        ∷ admits host false 61000000003
        ∷ charges host false 61000000004
        ∷ [])
      new
    ≡ 61000000000 ∷ 61000000001 ∷ 61000000004 ∷ []
unfolding accepted passed after try_admit release charge_message lookup insert remove text_beq
budget_starts_again = refl
