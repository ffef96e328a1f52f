-- ===== src/History.antt =====
-- A run of a program under funtrace.cpp with what each thread recorded: the steps of
-- Registry/System, and for each block the log of all entries that were recorded in it since its
-- registration.
pub mod Kept
pub mod Called
pub mod Joined
pub mod Followed
pub mod Snapshots
pub mod Written
pub mod Programs
pub mod Stepped
mod Tests
use funtrace.Prelude.{ℕ, ◌+◌, ◌≤◌, ◌≡◌, ◌⊎◌, Bool, List, [], ◌∷◌, ◌++◌, All, ◌==◌, if◌then◌else◌}
use funtrace.TraceBuffer.Layout.{TraceEntry}
use funtrace.TraceBuffer.Refine.{entry_of}
use funtrace.TraceBuffer.{TraceData}
use funtrace.Registry.Pointers.{count}
use funtrace.Registry.System.{
  World, Step, register, unregister, collect, pause, resume, name, call, idle_call, block_of,
}
use funtrace.Registry.{State}

-- The log of each block.
abbrev pub Logs : Type 0
Logs = ℕ → List TraceEntry

abbrev pub put_log : ℕ → List TraceEntry → Logs → Logs
put_log b log logs = λ x. if x == b then log else logs x

-- A registered thread's call is logged while tracing is not paused; a registration begins a log.
abbrev pub logged : {w u : World} → Step w u → Logs → Logs
logged (register getenv memalign thread n s' laws new e fresh) logs =
    put_log (block_of s' thread.self) [] logs
logged (unregister getname now copy thread defer_free new) logs = logs
logged (collect now exiting_program) logs = logs
logged pause logs = logs
logged resume logs = logs
logged (name getname) logs = logs
logged {w} (call self ptr flags cycle known) logs =
    let b = block_of w.state self in
    if w.state.tracing_paused
    then logs
    else put_log b (logs b ++ entry_of ptr flags cycle ∷ []) logs
logged (idle_call self ptr flags cycle other off) logs = logs

-- Two buffers have no byte in common.
abbrev pub Apart : TraceData → TraceData → Type 0
Apart t u = (t.buf + t.buf_size ≤ u.buf) ⊎ (u.buf + u.buf_size ≤ t.buf)

-- The allocator gives out memory that no registered trace holds. The time stamps of a thread are not
-- 0 and do not go down.
abbrev pub Obeys : {w u : World} → Step w u → Logs → Type 0
Obeys {w} (register getenv memalign thread n s' laws new e fresh) logs =
    (q : ℕ) → 1 ≤ count q w.state.thread_traces → Apart (s'.traces thread.self) (w.state.traces q)
Obeys (unregister getname now copy thread defer_free new) logs = Unit
Obeys (collect now exiting_program) logs = Unit
Obeys pause logs = Unit
Obeys resume logs = Unit
Obeys (name getname) logs = Unit
Obeys {w} (call self ptr flags cycle known) logs =
    (1 ≤ cycle) × All (λ e. e.cycle ≤ cycle) (logs (block_of w.state self))
Obeys (idle_call self ptr flags cycle other off) logs = Unit

pub data Run (w : World) : World → Logs → Type 0 where
  begun : Run w w (λ b. [])
  further :
      {u v : World} {logs : Logs}
      → Run w u logs
      → (step : Step u v) → Obeys step logs
      → Run w v (logged step logs)
