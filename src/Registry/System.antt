-- ===== src/Registry/System.antt =====
-- A program under funtrace.cpp: the registry, the blocks that the allocator gave out, and the steps
-- that threads make in any order. Each call under the mutex is one step, and so is each call of
-- `trace`, which takes no lock: a call that a pause or another step would come between is left out.
use funtrace.Prelude.{ℕ, ◌≤◌, ◌≡◌, ◌⊎◌, Bool, some, List, ◌∷◌, map, ℤ}
use funtrace.Config.{Env}
use funtrace.TraceBuffer.{TraceData, MemAlign, trace, update_name}
use funtrace.TraceBuffer.Allocate.{IsAligned}
use funtrace.Registry.Pointers.{count}
use funtrace.Registry.{
  State, Thread, update, modify_all, register_this_thread, unregister_this_thread, collect_garbage,
  pause_tracing, resume_tracing,
}

-- The addresses that `posix_memalign` returned so far, the last first.
pub record World : Type 0 where
  pub state : State
  pub allocated : List ℕ

-- A thread's call of `trace`.
abbrev pub traced : ℕ → ℕ → ℕ → ℕ → State → State
traced self ptr flags cycle s =
    let (mem, t) = trace ptr flags cycle (s.memory, s.traces self) in
    record s { memory = mem; traces = update self t s.traces }

-- The loop that reads the names anew.
abbrev pub names_updated : (ℕ → List ℕ) → State → State
names_updated getname s = record s { traces = modify_all (update_name getname) ps s.traces }
  where
    ps : List ℕ
    ps = s.thread_traces

-- The block of the trace at an address.
abbrev pub block_of : State → ℕ → ℕ
block_of s p = (s.traces p).buf

-- A thread that registers is not registered ("can't be called more than once before
-- unregister_this_thread()"), and its block, if it gets one, is not in use. `new` returns an
-- address that is not registered. A thread that is not registered calls `trace` while its trace is
-- disabled, as it is before the thread registers and after its buffer was freed. After the buffer was
-- left to the garbage collector it is not, and such a thread's calls are no steps.
pub data Step (w : World) : World → Type 0 where
  register :
      (getenv : Env) (memalign : MemAlign) (thread : Thread) (n : ℤ) (s' : State)
      → IsAligned memalign
      → count thread.self w.state.thread_traces ≡ 0
      → register_this_thread getenv memalign thread n w.state ≡ some s'
      → (block_of s' thread.self ≡ 0)
        ⊎ (count (block_of s' thread.self) w.allocated
            ≡ count (block_of s' thread.self) w.state.released)
      → Step w (record { state = s'; allocated = block_of s' thread.self ∷ w.allocated })
  unregister :
      (getname : ℕ → List ℕ) (now copy : ℕ) (thread : Thread) (defer_free : Bool)
      → count copy w.state.thread_traces ≡ 0
      → Step w
          (record w { state = unregister_this_thread getname now copy thread defer_free w.state })
  collect :
      (now : ℕ) (exiting_program : Bool)
      → Step w (record w { state = collect_garbage now exiting_program w.state })
  pause : Step w (record w { state = pause_tracing w.state })
  resume : Step w (record w { state = resume_tracing w.state })
  name : (getname : ℕ → List ℕ) → Step w (record w { state = names_updated getname w.state })
  call :
      (self ptr flags cycle : ℕ)
      → 1 ≤ count self w.state.thread_traces
      → Step w (record w { state = traced self ptr flags cycle w.state })
  idle_call :
      (self ptr flags cycle : ℕ)
      → count self w.state.thread_traces ≡ 0
      → (w.state.traces self).wraparound_mask ≡ 0
      → Step w (record w { state = traced self ptr flags cycle w.state })

-- What can follow a state.
pub data Reach (w : World) : World → Type 0 where
  here : Reach w w
  next : {u v : World} → Reach w u → Step u v → Reach w v

-- The blocks of the registered traces.
abbrev pub blocks : (ℕ → TraceData) → List ℕ → List ℕ
blocks traces ps = map (λ p. (traces p).buf) ps
