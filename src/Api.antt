-- ===== src/Api.antt =====
-- The functions of funtrace.h as funtrace.cpp defines them, over the registry and the snapshots,
-- and the life of a thread. Names of threads, times, new addresses, the lines of ftrace and the
-- memory map come from outside the functions, as arguments.
pub mod Snapshots
pub mod Written
pub mod Unbuffered
pub mod Sized
pub mod Heap
mod Tests
use funtrace.Prelude.{
  ℕ, ◌+◌, ◌-◌, ◌%◌, ◌^◌, Bool, true, false, Option, none, some, List, [], ◌∷◌, map, ltb,
  if◌then◌else◌, ◌>>=◌, ℤ, pos, negsuc,
}
use funtrace.Config.{Env}
use funtrace.TraceBuffer.{MemAlign, update_name}
use funtrace.Registry.{
  State, Thread, pause_tracing, resume_tracing, modify_all, register_this_thread,
  unregister_this_thread,
}
use funtrace.Snapshot.{EventBuffer, FuntraceSnapshot, whole_buffer, straight_buffer, all_since}
use funtrace.Format.{
  File, write_procmaps, write_funtrace, write_tracebufs, write_ftrace, write_endtrace,
}

-- What a snapshot takes from outside: `pthread_getname_np`, `get_procmaps` and
-- `ftrace_events_snapshot`, which is given the earliest time.
pub record Outside : Type 0 where
  pub getname : ℕ → List ℕ
  pub procmaps : List ℕ
  pub ftrace : ℕ → List (List ℕ)

-- The calls of `update_name` in the loops over the traces.
abbrev pub renamed : (ℕ → List ℕ) → State → State
renamed getname s = record s { traces = modify_all (update_name getname) s.thread_traces s.traces }

-- The copies that the loop over the paused traces makes.
abbrev pub whole_buffers : (ℕ → List ℕ) → State → List EventBuffer
whole_buffers getname s = map (λ p. whole_buffer s.memory getname (s.traces p)) s.thread_traces

-- The buffers that the loop collects without a copy.
abbrev pub straight_buffers : (ℕ → List ℕ) → State → List EventBuffer
straight_buffers getname s =
    map (λ p. straight_buffer s.memory getname (s.traces p)) s.thread_traces

unfoldable pub funtrace_pause_and_get_snapshot : Outside → State → FuntraceSnapshot × State
funtrace_pause_and_get_snapshot o s =
    let paused = pause_tracing s in
    (
      record {
        thread_traces = whole_buffers o.getname paused;
        ftrace_events = o.ftrace 1;
        procmaps = o.procmaps;
      },
      resume_tracing (renamed o.getname paused),
    )

-- What is appended to the file, and the state.
unfoldable pub funtrace_pause_and_write_current_snapshot : Outside → State → File → File × State
funtrace_pause_and_write_current_snapshot o s file =
    let paused = pause_tracing s in
    let traces = straight_buffers o.getname paused in
    (
      write_endtrace (
          write_ftrace (o.ftrace 1) (
            write_tracebufs traces
              (write_funtrace s.cpu_freq s.cmdline (write_procmaps o.procmaps file)))),
      resume_tracing (renamed o.getname paused),
    )

-- `pause_time` is `funtrace_time()` once tracing is paused; `none` is a read outside a buffer.
unfoldable pub funtrace_pause_and_get_snapshot_starting_at_time :
    Outside → ℕ → ℕ → State → Option (FuntraceSnapshot × State)
funtrace_pause_and_get_snapshot_starting_at_time o pause_time time s =
    let paused = pause_tracing s in
    all_since s.memory o.getname time pause_time (map paused.traces s.thread_traces) >>= λ buffers.
    some (
      record { thread_traces = buffers; ftrace_events = o.ftrace time; procmaps = o.procmaps },
      resume_tracing (renamed o.getname paused),
    )

-- The difference is one of `uint64_t`.
unfoldable pub funtrace_pause_and_get_snapshot_up_to_age :
    Outside → ℕ → ℕ → ℕ → State → Option (FuntraceSnapshot × State)
funtrace_pause_and_get_snapshot_up_to_age o now pause_time max_event_age s =
    funtrace_pause_and_get_snapshot_starting_at_time o pause_time
      ((now + 2 ^ 64 - max_event_age) % 2 ^ 64) s

unfoldable pub funtrace_disable_tracing : State → State
funtrace_disable_tracing s = pause_tracing s

unfoldable pub funtrace_enable_tracing : State → State
funtrace_enable_tracing s = resume_tracing s

unfoldable pub funtrace_ignore_this_thread : Thread → State → State
funtrace_ignore_this_thread thread s = unregister_this_thread (λ _. []) 0 0 thread false s

-- `log_buf_size >= 5`
abbrev pub at_least_five : ℤ → Bool
at_least_five (pos n) = ltb 4 n
at_least_five (negsuc n) = false

unfoldable pub funtrace_set_thread_log_buf_size : Env → MemAlign → Thread → ℤ → State → Option State
funtrace_set_thread_log_buf_size getenv memalign thread log_buf_size s =
    let ignored = funtrace_ignore_this_thread thread s in
    if at_least_five log_buf_size
    then register_this_thread getenv memalign thread log_buf_size ignored
    else some ignored

-- `pthread_entry_point`, around the thread's own function.
unfoldable pub pthread_entry_point :
    Env → MemAlign → Outside → ℕ → ℕ → Thread → (State → State) → State → Option State
pthread_entry_point getenv memalign o now copy thread func s =
    register_this_thread getenv memalign thread (pos 0) s >>= λ s'.
    some (unregister_this_thread o.getname now copy thread true (func s'))
