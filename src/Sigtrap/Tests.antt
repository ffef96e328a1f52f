-- ===== src/Sigtrap/Tests.antt =====
-- The SIGTRAP handler's theorems at an order of turns.
use funtrace.Prelude.{◌+◌, ◌≤◌, ◌≡◌, refl, true, List, [], ◌∷◌, ◌++◌, arith, replicate}
use funtrace.Sigtrap.{
  Owner, Place, before_constructor, Turn, turn, turns, owner_at, thread_at, signal_handler,
}
use funtrace.Sigtrap.Tokens.{turns-snapshots}
use funtrace.Sigtrap.Ends.{thread-finished}
use funtrace.Sigtrap.Served.{signal-snapshot}

-- The constructor, with the thread waiting before the handler is installed.
abbrev construction : List Turn
construction =
    replicate 3 Turn.of_owner
    ++ Turn.of_thread ∷ Turn.of_thread ∷ Turn.of_signal ∷ Turn.of_owner ∷ []

abbrev destruction : List Turn
destruction = Turn.of_owner ∷ Turn.of_owner ∷ []

turns-snapshots_example :
    (turns
      (construction ++ Turn.of_signal ∷ replicate 3 Turn.of_thread)
      (before_constructor true)).snapshots
    ≤ (turns
        (construction ++ Turn.of_signal ∷ replicate 3 Turn.of_thread)
        (before_constructor true)).signals
turns-snapshots_example =
    turns-snapshots true (construction ++ Turn.of_signal ∷ replicate 3 Turn.of_thread)

thread-finished_example :
    ((turns
        (replicate 3 Turn.of_thread)
        (turns (construction ++ destruction) (before_constructor true))).thread
      ≡ Place.finished)
    × ((turn Turn.of_owner (
          turns
            (replicate 3 Turn.of_thread)
            (turns (construction ++ destruction) (before_constructor true)))).owner
        ≡ Owner.joined)
unfolding turns turn owner_at thread_at signal_handler
thread-finished_example =
    thread-finished true (construction ++ destruction) (replicate 3 Turn.of_thread) refl
      (omega arith)

signal-snapshot_example :
    0 + 1
    ≤ (turns
        (Turn.of_signal ∷ replicate 5 Turn.of_thread)
        (turns construction (before_constructor true))).snapshots
unfolding turns turn owner_at thread_at signal_handler
signal-snapshot_example =
    signal-snapshot true construction (replicate 5 Turn.of_thread) refl refl (omega arith)
