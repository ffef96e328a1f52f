-- ===== src/Registry.antt =====
-- `trace_global_state` of funtrace.cpp: the registry of the threads' traces. Each operation runs
-- under the mutex, so it is one step. Objects of type `trace_data` stand at addresses; `deleted`
-- and `released` list the objects and the blocks that were given back, the last first.
pub mod Pointers
pub mod Collect
pub mod Pause
pub mod Unregister
pub mod System
pub mod Blocks
pub mod Ledger
pub mod Balanced
pub mod Registering
pub mod Start
pub mod Ready
pub mod Carried
pub mod Switch
pub mod Lives
pub mod Reachable
pub mod Runs
mod Tests
use funtrace.Prelude.{
  ℕ, zero, suc, ◌+◌, ◌-◌, ◌%◌, ◌^◌, Bool, true, false, not, ◌&&◌, ◌||◌, Option, none, some, List,
  [], ◌∷◌, ◌++◌, ltb, ◌==◌, if◌then◌else◌, ◌>>=◌, ℤ, pos, negsuc, is_zero, to_uint64, length,
  get_or, set,
}
use funtrace.Config.{Env}
use funtrace.TraceBuffer.Layout.{Memory}
use funtrace.TraceBuffer.{TraceData, ThreadId, MemAlign, allocate, free, update_name}
use funtrace.TraceBuffer
use Pointers.{find_index, swap_remove}

pub record State : Type 0 where
  pub memory : Memory
  pub traces : ℕ → TraceData
  pub thread_traces : List ℕ
  pub pid : ℕ
  pub cmdline : List ℕ
  pub cpu_freq : ℕ
  pub exe_path : List ℕ
  pub gc_max_age_ms : ℤ
  pub exiting : Bool
  pub tracing_paused : Bool
  pub deleted : List ℕ
  pub released : List ℕ

-- The calling thread: the address of its `g_thread_trace`, `gettid()` and `pthread_self()`.
pub record Thread : Type 0 where
  pub self : ℕ
  pub tid : ℕ
  pub pthread : ℕ

-- A new value for the object at an address.
abbrev pub update : ℕ → TraceData → (ℕ → TraceData) → ℕ → TraceData
update p t traces = λ x. if x == p then t else traces x

-- `for(auto trace : thread_traces) trace->f()`
unfoldable pub modify_all : (TraceData → TraceData) → List ℕ → (ℕ → TraceData) → ℕ → TraceData
modify_all f [] traces = traces
modify_all f (p ∷ ps) traces = modify_all f ps (update p (f (traces p)) traces)

unfoldable pub pause_tracing : State → State
pause_tracing s = record s {
  tracing_paused = true;
  traces = modify_all TraceBuffer.pause_tracing ps s.traces;
}
  where
    ps : List ℕ
    ps = s.thread_traces

unfoldable pub resume_tracing : State → State
resume_tracing s = record s {
  tracing_paused = false;
  traces = modify_all TraceBuffer.resume_tracing ps s.traces;
}
  where
    ps : List ℕ
    ps = s.thread_traces

-- What registration fills in of a trace that was just allocated.
abbrev pub registered : State → Thread → TraceData → TraceData
registered s thread t =
    let t' = if s.tracing_paused then TraceBuffer.pause_tracing t else t in
    record t' {
      id = record { pid = s.pid; tid = thread.tid; name = t.id.name };
      thread = thread.pthread;
    }

-- `none` is `allocate`'s undefined behaviour.
unfoldable pub register_this_thread : Env → MemAlign → Thread → ℤ → State → Option State
register_this_thread getenv memalign thread log_buf_size s =
    allocate getenv memalign log_buf_size (s.memory, s.traces thread.self) >>= λ r. some (record s {
      memory = r.0;
      traces = update thread.self (registered s thread r.1) s.traces;
      thread_traces = s.thread_traces ++ thread.self ∷ [];
    })

-- The trace kept for the garbage collector: a copy of the thread's, marked finished.
abbrev pub finished : (ℕ → List ℕ) → ℕ → TraceData → TraceData
finished getname now t = record (update_name getname t) { thread = 0; time_of_death_ms = now }

unfoldable unregister_at : (ℕ → List ℕ) → ℕ → ℕ → Thread → Bool → ℕ → State → State
unregister_at getname now copy thread defer_free i s =
    let t = s.traces thread.self in
    if is_zero s.gc_max_age_ms || (not defer_free || s.exiting)
    then record s {
      traces = update thread.self (free t) s.traces;
      released = t.buf ∷ s.released;
      thread_traces = swap_remove i s.thread_traces;
    }
    else record s {
      traces = update copy (finished getname now t) s.traces;
      thread_traces = set s.thread_traces i copy;
    }

-- `copy` is the address that `new trace_data` returns, and `now` is `current_time_ms()`.
unfoldable pub unregister_this_thread : (ℕ → List ℕ) → ℕ → ℕ → Thread → Bool → State → State
unfolding unregister_at
unregister_this_thread getname now copy thread defer_free s =
    elim (find_index thread.self s.thread_traces) [
      | none ↦ s
      | some i ↦ unregister_at getname now copy thread defer_free i s
    ]

-- Whether the collector leaves a trace alone: its thread lives, or finished recently. The sum is
-- one of `uint64_t`.
unfoldable pub is_kept : ℕ → State → ℕ → Bool
is_kept now s p =
    not ((s.traces p).thread == 0)
    || (not s.exiting
        && ltb now (((s.traces p).time_of_death_ms + to_uint64 s.gc_max_age_ms) % 2 ^ 64))

-- The trace at place `i` is freed, deleted, and replaced by the last one.
unfoldable pub collect : ℕ → ℕ → State → State
collect i p s = record s {
  traces = update p (free (s.traces p)) s.traces;
  released = (s.traces p).buf ∷ s.released;
  deleted = p ∷ s.deleted;
  thread_traces = swap_remove i s.thread_traces;
}

-- The loop from place `i` on, with fuel.
unfoldable pub collect_from : ℕ → ℕ → ℕ → State → State
collect_from now zero i s = s
collect_from now (suc fuel) i s = elim (ltb i (length s.thread_traces)) [
  | false ↦ s
  | true ↦ elim (is_kept now s (get_or s.thread_traces i 0)) [
    | true ↦ collect_from now fuel (suc i) s
    | false ↦ collect_from now fuel i (collect i (get_or s.thread_traces i 0) s)
  ]
]

-- Each round passes a trace or removes one, so their number is fuel enough.
unfoldable pub collect_garbage : ℕ → Bool → State → State
collect_garbage now exiting_program s =
    let s' = if exiting_program then record s { exiting = true } else s in
    if is_zero s.gc_max_age_ms then s else collect_from now (length s'.thread_traces) 0 s'
