-- ===== src/Api/Tests.antt =====
-- The theorems on snapshots at a state with one registered thread.
use funtrace.Api.Heap.{new_snapshot, funtrace_free_snapshot, funtrace_free_snapshot-new_snapshot}
use funtrace.Prelude.{
  ℕ, ◌≡◌, refl, some, false, [], ◌∷◌, map, filter, arith, pos, none, inl, replicate, lognot,
}
use funtrace.TraceBuffer.Layout.{entries_at}
use funtrace.TraceBuffer.Demo.{demo, demo_memory, demo-IsAllocated}
use funtrace.Config.{Env, env_int, default_log_buf_size}
use funtrace.TraceBuffer.{MemAlign}
use funtrace.Api.Unbuffered.{register_this_thread-starting_at_time}
use funtrace.Registry.{State, pause_tracing, register_this_thread}
use funtrace.Snapshot.Select.{in_window}
use funtrace.Snapshot.Exact.{IsLogged, valid_entries}
use funtrace.Snapshot.{FuntraceSnapshot}
use funtrace.Format.Chunks.{read_chunks}
use funtrace.Format.RoundTrip.{snapshot_chunks}
use funtrace.Api.Snapshots.{starting_at_time_exact, get_snapshot_enables}
use funtrace.Api.Written.{read_chunks-funtrace_pause_and_write_current_snapshot}
use funtrace.Api.{
  Outside, funtrace_pause_and_get_snapshot, funtrace_pause_and_write_current_snapshot,
  funtrace_pause_and_get_snapshot_starting_at_time,
}

abbrev outside : Outside
outside = record { getname = λ _. replicate 16 0; procmaps = b'x' ∷ []; ftrace = λ _. [] }

abbrev one : State
one = record {
  memory = demo_memory;
  traces = λ p. demo;
  thread_traces = 100 ∷ [];
  pid = 1;
  cmdline = b'p' ∷ [];
  cpu_freq = 1000000;
  exe_path = [];
  gc_max_age_ms = pos 300;
  exiting = false;
  tracing_paused = false;
  deleted = [];
  released = [];
}

demo-IsLogged : IsLogged 25 (demo_memory, demo)
unfolding entries_at
demo-IsLogged = omega arith

starting_at_time_exact_example :
    (snapshot : FuntraceSnapshot) × (s' : State) × (funtrace_pause_and_get_snapshot_starting_at_time
        outside 25 15 one
      ≡ some (snapshot, s'))
    × (map (λ b. b.buf) snapshot.thread_traces
        ≡ filter (in_window 15 25) (valid_entries (demo_memory, demo)) ∷ [])
starting_at_time_exact_example =
    starting_at_time_exact outside 25 15 one (omega arith) ((demo-IsAllocated, demo-IsLogged), tt)

get_snapshot_enables_example :
    let (snapshot, s') = funtrace_pause_and_get_snapshot outside one in
    (s'.tracing_paused ≡ false)
    × (((s'.traces 100).wraparound_mask ≡ lognot 32)
        × ((s'.traces 100).pos ≡ 96)
        × ((s'.traces 100).buf ≡ 64)
        × ((s'.traces 100).buf_size ≡ 32))
get_snapshot_enables_example = get_snapshot_enables outside one 100 (omega arith)

read_chunks-funtrace_pause_and_write_current_snapshot_example :
    read_chunks 7 (funtrace_pause_and_write_current_snapshot outside one []).0
    ≡ some (snapshot_chunks 1000000 (b'p' ∷ []) (funtrace_pause_and_get_snapshot outside one).0)
unfolding funtrace_pause_and_get_snapshot pause_tracing
read_chunks-funtrace_pause_and_write_current_snapshot_example =
    read_chunks-funtrace_pause_and_write_current_snapshot 7 outside one (λ _. refl)
      ((demo-IsAllocated, refl), tt) (omega arith) (omega arith) (omega arith) (omega arith)

abbrev disabled : Env
disabled name = some (b'0' ∷ [])

abbrev no_memory : MemAlign
no_memory alignment size = none

register_this_thread-starting_at_time_example :
    (s' : State) × (register_this_thread disabled no_memory
        (record { self = 101; tid = 6; pthread = 9 })
        (pos 0)
        one
      ≡ some s')
    × ((o : Outside) (pause_time time : ℕ)
        → funtrace_pause_and_get_snapshot_starting_at_time o pause_time time s' ≡ none)
unfolding default_log_buf_size env_int
register_this_thread-starting_at_time_example =
    register_this_thread-starting_at_time disabled no_memory
      (record { self = 101; tid = 6; pthread = 9 }) (pos 0) 0 one refl (omega arith) (inl refl)

funtrace_free_snapshot-new_snapshot_example :
    funtrace_free_snapshot 64 (96 ∷ 128 ∷ []) (new_snapshot 64 (96 ∷ 128 ∷ []) (32 ∷ []))
    ≡ some (32 ∷ [])
funtrace_free_snapshot-new_snapshot_example =
    funtrace_free_snapshot-new_snapshot 64 (96 ∷ 128 ∷ []) (32 ∷ []) (omega arith)
      ((omega arith, refl, refl, (omega arith, refl, refl, tt)))
