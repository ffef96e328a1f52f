-- ===== src/Collector/Tests.antt =====
-- The collector's thread at a state with one live thread and one that finished.
use funtrace.Prelude.{
  ℕ, none, List, if◌then◌else◌, ◌==◌, ◌⊎◌, arith, ◌≡◌, refl, false, [], ◌∷◌, ◌++◌, pos,
}
use funtrace.TraceBuffer.Demo.{demo, demo_memory}
use funtrace.Registry.Pointers.{count, find_index}
use funtrace.Registry.{State, update}
use funtrace.Registry.{Thread, unregister_this_thread}
use funtrace.Config.{Env, env_int}
use funtrace.Api.{funtrace_ignore_this_thread}
use funtrace.Collector.Exit.{timeouts}
use funtrace.Collector.Life.{
  Owner, Place, FuntraceGc, before_constructor, is_finished, owner_at, thread_at, Turn, turn, turns,
}
use funtrace.Collector.Joined.{NeverStarted, HasFinished, turns-joined, joined-count}
use funtrace.Collector.Ends.{turns-finished}
use funtrace.Collector.Lasting.{turns-lasting}

abbrev two : State
two = record {
  memory = demo_memory;
  traces = update 101 (record demo { thread = 0; time_of_death_ms = 5 }) (λ p. demo);
  thread_traces = 100 ∷ 101 ∷ [];
  pid = 1;
  cmdline = [];
  cpu_freq = 1000000;
  exe_path = [];
  gc_max_age_ms = pos 300;
  exiting = false;
  tracing_paused = false;
  deleted = [];
  released = [];
}

abbrev collector : Thread
collector = record { self = 500; tid = 6; pthread = 8 }

abbrev no_env : Env
no_env name = none

-- The thread starts, and its first wait ends by its time.
abbrev first_round : List Turn
first_round =
    Turn.of_owner
    ∷ Turn.of_owner
    ∷ Turn.of_owner
    ∷ Turn.of_owner
    ∷ Turn.of_owner
    ∷ Turn.of_thread 1
    ∷ Turn.of_thread 2
    ∷ Turn.of_thread 3
    ∷ Turn.of_thread 20
    ∷ Turn.of_thread 21
    ∷ Turn.of_thread 22
    ∷ Turn.of_thread 23
    ∷ Turn.of_thread 24
    ∷ []

-- The destructor sets the flag, notifies, and waits for the thread.
abbrev leaving : List Turn
leaving = first_round ++ Turn.of_owner ∷ Turn.of_owner ∷ Turn.of_owner ∷ Turn.of_owner ∷ []

abbrev ten : List Turn
ten =
    Turn.of_thread 25
    ∷ Turn.of_thread 26
    ∷ Turn.of_thread 27
    ∷ Turn.of_thread 28
    ∷ Turn.of_thread 29
    ∷ Turn.of_thread 30
    ∷ Turn.of_thread 31
    ∷ Turn.of_thread 32
    ∷ Turn.of_thread 33
    ∷ Turn.of_thread 34
    ∷ []

abbrev whole_life : List Turn
whole_life = leaving ++ ten ++ Turn.of_owner ∷ []

abbrev end : FuntraceGc
end = turns no_env collector whole_life (before_constructor two)

turns-joined_example : NeverStarted two end ⊎ HasFinished collector two end
unfolding turns turn owner_at thread_at env_int
turns-joined_example = turns-joined no_env collector two whole_life refl

joined-count_example :
    let begun = funtrace_ignore_this_thread collector two in
    count 101 end.registry.thread_traces
    ≡ (if (begun.traces 101).thread == 0 then 0 else count 101 begun.thread_traces)
unfolding turns turn owner_at thread_at env_int funtrace_ignore_this_thread unregister_this_thread
    find_index
joined-count_example = joined-count no_env collector two whole_life 101 refl refl refl

turns-finished_example :
    let g = turns no_env collector leaving (before_constructor two) in
    ((turns no_env collector ten g).thread ≡ Place.finished)
    × ((turn no_env collector Turn.of_owner (turns no_env collector ten g)).owner ≡ Owner.joined)
unfolding turns turn owner_at thread_at env_int
turns-finished_example = turns-finished no_env collector two leaving ten refl (omega arith)

turns-lasting_example :
    let g = turns no_env collector first_round (before_constructor two) in
    ((nows : List ℕ) × (g.rounds ≡ timeouts nows)) × (is_finished g.thread ≡ false)
unfolding turns turn owner_at thread_at env_int
turns-lasting_example = turns-lasting no_env collector two first_round refl refl
