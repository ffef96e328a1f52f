-- ===== src/Collector.antt =====
-- The thread of funtrace.cpp that collects garbage: `funtrace_gc::thread_func`.
pub mod Exit
pub mod Life
pub mod Holders
pub mod Turns
pub mod Rounds
pub mod Told
pub mod Joined
pub mod Ends
pub mod Lasting
mod Tests
use funtrace.Prelude.{ℕ, Bool, true, false, List, [], ◌∷◌}
use funtrace.Registry.{State, Thread, collect_garbage}
use funtrace.Api.{funtrace_ignore_this_thread}

-- The end of a wait: `current_time_ms()` of the round, and whether it ended by a notification or
-- `quit` is set.
pub record Wake : Type 0 where
  pub now : ℕ
  pub exiting : Bool

-- The rounds of the loop, one for each wait that has ended so far.
unfoldable pub gc_loop : List Wake → State → State
gc_loop [] s = s
gc_loop (w ∷ ws) s =
    let s' = collect_garbage w.now w.exiting s in
    let rest = gc_loop ws s' in elim w.exiting [ true ↦ s' | false ↦ rest ]

unfoldable pub thread_func : Thread → List Wake → State → State
thread_func thread ws s = gc_loop ws (funtrace_ignore_this_thread thread s)
