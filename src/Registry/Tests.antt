-- ===== src/Registry/Tests.antt =====
-- Runs of the registry, and the theorems at them.
use funtrace.Prelude.{◌+◌, ◌≡◌, refl, false, true, arith, [], ◌∷◌, pos, if◌then◌else◌}
use funtrace.TraceBuffer.Demo.{demo, demo_memory}
use funtrace.Registry.Pointers.{count, swap_remove}
use funtrace.Registry.Collect.{noted, collect_garbage-count}
use funtrace.Registry.Unregister.{
  unregister_this_thread-count, unregister_this_thread-unregister_this_thread,
}
use funtrace.Registry.{
  State, Thread, unregister_this_thread, update, is_kept, collect, collect_from, collect_garbage,
}

-- Threads 100 and 102 live; 101 finished at 5 ms.
abbrev three : State
three = record {
  memory = demo_memory;
  traces = update 101 (record demo { thread = 0; time_of_death_ms = 5 }) (λ p. demo);
  thread_traces = 100 ∷ 101 ∷ 102 ∷ [];
  pid = 1;
  cmdline = [];
  cpu_freq = 1000000;
  exe_path = [];
  gc_max_age_ms = pos 300;
  exiting = false;
  tracing_paused = false;
  deleted = [];
  released = [];
}

old_is_collected : (collect_garbage 400 false three).thread_traces ≡ 100 ∷ 102 ∷ []
unfolding collect_garbage collect_from collect is_kept swap_remove
old_is_collected = refl

recent_is_kept : (collect_garbage 200 false three).thread_traces ≡ 100 ∷ 101 ∷ 102 ∷ []
unfolding collect_garbage collect_from collect is_kept swap_remove
recent_is_kept = refl

collect_garbage-count_example :
    let s' = collect_garbage 400 false three in
    let kept = is_kept 400 (noted false three) 101 in
    (count 101 s'.thread_traces ≡ (if kept then count 101 three.thread_traces else 0))
    × (count 101 s'.deleted ≡ count 101 three.deleted + (if kept then 0 else 1))
collect_garbage-count_example = collect_garbage-count 400 101 false three refl

abbrev thread_hundred : Thread
thread_hundred = record { self = 100; tid = 5; pthread = 9 }

unregister_this_thread-count_example :
    let s' = unregister_this_thread (λ _. []) 7 104 thread_hundred true three in
    (count 100 s'.thread_traces + 1 ≡ count 100 three.thread_traces + 0)
    × (s'.released ≡ three.released)
unregister_this_thread-count_example =
    unregister_this_thread-count (λ _. []) 7 104 thread_hundred true three 100 (omega arith)

unregister_this_thread-unregister_this_thread_example :
    unregister_this_thread
      (λ _. [])
      8
      105
      thread_hundred
      false
      (unregister_this_thread (λ _. []) 7 104 thread_hundred true three)
    ≡ unregister_this_thread (λ _. []) 7 104 thread_hundred true three
unregister_this_thread-unregister_this_thread_example =
    unregister_this_thread-unregister_this_thread (λ _. []) 7 104 thread_hundred true 8 105 false
      three (omega arith) (λ e. absurd (omega arith))
