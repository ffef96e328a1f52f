-- ===== src/History/Programs.antt =====
-- A program that calls the functions of funtrace.h, as a run of the steps under the registry's mutex.
use funtrace.Prelude.{
  ℕ, ◌≡◌, ◌⊎◌, Bool, true, false, negsuc, some, List, [], ◌∷◌, ◌++◌, All, ◌≤◌, if◌then◌else◌, ℤ,
  pos,
}
use funtrace.Config.{Env}
use funtrace.TraceBuffer.Refine.{entry_of}
use funtrace.TraceBuffer.Allocate.{IsAligned}
use funtrace.TraceBuffer.{MemAlign}
use funtrace.Registry.Pointers.{count}
use funtrace.Registry.System.{World, block_of, traced}
use funtrace.Registry.{State, Thread, register_this_thread, unregister_this_thread, collect_garbage}
use funtrace.Snapshot.{FuntraceSnapshot}
use funtrace.Format.{File}
use funtrace.Api.{
  Outside, funtrace_pause_and_get_snapshot, funtrace_pause_and_write_current_snapshot,
  funtrace_pause_and_get_snapshot_starting_at_time, funtrace_pause_and_get_snapshot_up_to_age,
  funtrace_disable_tracing, funtrace_enable_tracing, funtrace_ignore_this_thread,
  funtrace_set_thread_log_buf_size,
}
use funtrace.History.{Logs, Apart, put_log}

-- A world in which the registry has changed.
abbrev pub in_state : World → State → World
in_state u s = record u { state = s }

-- A world in which a thread has registered.
abbrev pub with_block : World → Thread → State → World
with_block u thread s' = record { state = s'; allocated = block_of s' thread.self ∷ u.allocated }

-- What a thread that registers relies on: its trace is not registered, and the block that it gets
-- is not in use.
abbrev pub MayRegister : World → State → MemAlign → Thread → State → Type 0
MayRegister u s memalign thread s' =
    IsAligned memalign
    × (count thread.self s.thread_traces ≡ 0)
    × ((block_of s' thread.self ≡ 0)
        ⊎ (count (block_of s' thread.self) u.allocated
            ≡ count (block_of s' thread.self) s.released))
    × ((q : ℕ) → 1 ≤ count q s.thread_traces → Apart (s'.traces thread.self) (s.traces q))

-- A size at which a thread is not traced.
abbrev pub IsBelowFive : ℤ → Type 0
IsBelowFive (pos n) = n ≤ 4
IsBelowFive (negsuc n) = Unit

-- What can follow a state in a program whose threads start and end, call traced functions and the
-- functions of funtrace.h, while the collector makes its rounds, and what was recorded while tracing
-- was on. The Boolean tells whether tracing is off: it is on at the start, off after
-- funtrace_disable_tracing, on again after funtrace_enable_tracing and after each snapshot, and
-- nothing else changes it. A call is made by a
-- registered thread, or by one whose trace is disabled. `null` is no thread's trace.
pub data Program (w : World) : Bool → World → Logs → Type 0 where
  not_begun : Program w false w (λ b. [])
  thread_starts :
      {off : Bool} {u : World} {logs : Logs} (getenv : Env) (memalign : MemAlign) (thread : Thread)
      (s' : State)
      → Program w off u logs
      → register_this_thread getenv memalign thread (pos 0) u.state ≡ some s'
      → MayRegister u u.state memalign thread s'
      → Program w off (with_block u thread s') (put_log (block_of s' thread.self) [] logs)
  thread_ends :
      {off : Bool} {u : World} {logs : Logs} (getname : ℕ → List ℕ) (now copy : ℕ) (thread : Thread)
      → Program w off u logs
      → count copy u.state.thread_traces ≡ 0
      → Program w off
          (in_state u (unregister_this_thread getname now copy thread true u.state))
          logs
  traces :
      {off : Bool} {u : World} {logs : Logs} (self ptr flags cycle : ℕ)
      → Program w off u logs
      → 1 ≤ count self u.state.thread_traces
      → 1 ≤ cycle
      → All (λ e. e.cycle ≤ cycle) (logs (block_of u.state self))
      → Program w off (in_state u (traced self ptr flags cycle u.state)) (
          let b = block_of u.state self in
          if off then logs else put_log b (logs b ++ entry_of ptr flags cycle ∷ []) logs)
  traces_nothing :
      {off : Bool} {u : World} {logs : Logs} (self ptr flags cycle : ℕ)
      → Program w off u logs
      → count self u.state.thread_traces ≡ 0
      → (u.state.traces self).wraparound_mask ≡ 0
      → Program w off (in_state u (traced self ptr flags cycle u.state)) logs
  collects :
      {off : Bool} {u : World} {logs : Logs} (now : ℕ) (exiting_program : Bool)
      → Program w off u logs
      → Program w off (in_state u (collect_garbage now exiting_program u.state)) logs
  gets_snapshot :
      {off : Bool} {u : World} {logs : Logs} (o : Outside)
      → Program w off u logs
      → Program w false (in_state u (funtrace_pause_and_get_snapshot o u.state).1) logs
  writes_snapshot :
      {off : Bool} {u : World} {logs : Logs} (o : Outside) (file : File)
      → Program w off u logs
      → Program w false
          (in_state u (funtrace_pause_and_write_current_snapshot o u.state file).1)
          logs
  gets_since :
      {off : Bool} {u : World} {logs : Logs} (o : Outside) (pause_time time : ℕ)
      (snapshot : FuntraceSnapshot) (s' : State)
      → Program w off u logs
      → funtrace_pause_and_get_snapshot_starting_at_time o pause_time time u.state
        ≡ some (snapshot, s')
      → Program w false (in_state u s') logs
  gets_up_to_age :
      {off : Bool} {u : World} {logs : Logs} (o : Outside) (now pause_time max_event_age : ℕ)
      (snapshot : FuntraceSnapshot) (s' : State)
      → Program w off u logs
      → funtrace_pause_and_get_snapshot_up_to_age o now pause_time max_event_age u.state
        ≡ some (snapshot, s')
      → Program w false (in_state u s') logs
  disables :
      {off : Bool} {u : World} {logs : Logs}
      → Program w off u logs
      → Program w true (in_state u (funtrace_disable_tracing u.state)) logs
  enables :
      {off : Bool} {u : World} {logs : Logs}
      → Program w off u logs
      → Program w false (in_state u (funtrace_enable_tracing u.state)) logs
  ignores :
      {off : Bool} {u : World} {logs : Logs} (thread : Thread)
      → Program w off u logs
      → count 0 u.state.thread_traces ≡ 0
      → Program w off (in_state u (funtrace_ignore_this_thread thread u.state)) logs
  sets_size :
      {off : Bool} {u : World} {logs : Logs} (getenv : Env) (memalign : MemAlign) (thread : Thread)
      (n : ℕ) (s' : State)
      → Program w off u logs
      → count 0 u.state.thread_traces ≡ 0
      → funtrace_set_thread_log_buf_size getenv memalign thread (pos n) u.state ≡ some s'
      → 5 ≤ n
      → MayRegister u (funtrace_ignore_this_thread thread u.state) memalign thread s'
      → Program w off (with_block u thread s') (put_log (block_of s' thread.self) [] logs)
  sets_no_size :
      {off : Bool} {u : World} {logs : Logs} (getenv : Env) (memalign : MemAlign) (thread : Thread)
      (n : ℤ) (s' : State)
      → Program w off u logs
      → count 0 u.state.thread_traces ≡ 0
      → funtrace_set_thread_log_buf_size getenv memalign thread n u.state ≡ some s'
      → IsBelowFive n
      → Program w off (in_state u s') logs
