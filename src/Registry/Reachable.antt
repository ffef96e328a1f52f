-- ===== src/Registry/Reachable.antt =====
-- What holds in every state that a program reaches from the registry's constructor on.
use funtrace.Prelude.{
  ℕ, ◌+◌, ◌≤◌, ◌≡◌, refl, ap, sym, ◌∙◌, subst, inl, inr, Bool, true, false, some, List, [], ◌∷◌,
  ◌++◌, drop, arith, ◌>>=◌, Option-cases,
}
use mathlib.Core.Option.{some-injective}
use funtrace.Config.{Env}
use funtrace.CmdLine.{get_cmdline}
use funtrace.TraceBuffer.Layout.{Memory}
use funtrace.TraceBuffer.Refine.{chronological, entry_of, chronological-trace}
use funtrace.TraceBuffer.Run.{trace-disabled}
use funtrace.TraceBuffer.{TraceData, trace}
use funtrace.Registry.Pointers.{count}
use funtrace.Registry.Ledger.{IsBalanced}
use funtrace.Registry.Ready.{IsReady}
use funtrace.Registry.Start.{Host, started, trace_global_state}
use funtrace.Registry.Switch.{AllReady}
use funtrace.Registry.Lives.{Reach-AllReady}
use funtrace.Registry.System.{World, Reach, blocks, traced}
use funtrace.Registry.{State, update}

-- The registry's state at the start, and no block given out.
abbrev pub begin : State → World
begin s = record { state = s; allocated = [] }

started-Good :
    (getenv : Env) (host : Host) (mem : Memory) (line : List ℕ)
    → IsBalanced (begin (started getenv host mem line))
      × AllReady (started getenv host mem line)
      × ((started getenv host mem line).thread_traces ≡ [])
started-Good getenv host mem line = (
  record { unique = λ p. omega arith; balance = λ b pos. refl; single = λ b pos. omega arith },
  λ p k. absurd (omega arith),
  refl,
)

pub begin-Good :
    (getenv : Env) (host : Host) (mem : Memory) (s : State)
    → trace_global_state getenv host mem ≡ some s
    → IsBalanced (begin s) × AllReady s × (s.thread_traces ≡ [])
unfolding trace_global_state
begin-Good getenv host mem s e = elim (Option-cases (get_cmdline host.cmdline_file)) [
  | inl f ↦ cc (e, ap (λ o. o >>= λ line. some (started getenv host mem line)) f)
  | inr (line, f) ↦
      subst (λ s. IsBalanced (begin s) × AllReady s × (s.thread_traces ≡ []))
        (some-injective _ _
          (sym (ap (λ o. o >>= λ line. some (started getenv host mem line)) f) ∙ e))
        (started-Good getenv host mem line)
]

pub update_self : (p : ℕ) (t : TraceData) (traces : ℕ → TraceData) → update p t traces p ≡ t
update_self p t traces = ground arith

IsReady-call :
    (paused : Bool) (ptr flags cycle : ℕ) (mem : Memory) (t : TraceData)
    → IsReady paused t
    → (paused ≡ true
        → ((trace ptr flags cycle (mem, t)).0 ≡ mem) × ((trace ptr flags cycle (mem, t)).1 ≡ t))
      × (paused ≡ false
          → 1 ≤ t.buf_size
          → chronological (trace ptr flags cycle (mem, t))
            ≡ drop 1 (chronological (mem, t)) ++ entry_of ptr flags cycle ∷ [])
IsReady-call paused ptr flags cycle mem t (inl (v, m, n)) = (
  λ e.
      let off = trace-disabled ptr flags cycle t mem (inl (m e)) in
      (ap (λ x. x.0) off, ap (λ x. x.1) off),
  λ e pos. chronological-trace v (n e) mem ptr flags cycle,
)
IsReady-call paused ptr flags cycle mem t (inr (a, b, c)) = (
  λ e.
      let off = trace-disabled ptr flags cycle t mem (inr c) in
      (ap (λ x. x.0) off, ap (λ x. x.1) off),
  λ e pos. absurd (omega arith),
)

module _ (getenv : Env) (host : Host) (mem : Memory) {s : State}
    (start : trace_global_state getenv host mem ≡ some s) {u : World}
    (run : Reach (begin s) u) where
  good : IsBalanced u × AllReady u.state
  good = let (b, h, e) = begin-Good getenv host mem s start in Reach-AllReady run b h

  -- However threads start and leave, traces are collected, tracing is paused and resumed and
  -- functions are traced, each block that the allocator gave out is held by one registered trace
  -- or was released, and was released as often as it was given out or once less: no block is
  -- released while a registered trace holds it, released twice, or shared by two of them.
  pub Reach-blocks :
      (b : ℕ)
      → 1 ≤ b
      → let held = count b (blocks u.state.traces u.state.thread_traces) in
        (held + count b u.state.released ≡ count b u.allocated) × (held ≤ 1)
  Reach-blocks b pos =
      (good.0.balance b pos, omega (arith, good.0.balance b pos, good.0.single b pos))

  -- In every reachable state a thread is registered once at most, and its trace has a well-formed
  -- buffer, whose mask is 0 if tracing is paused and enables it otherwise, or no buffer.
  pub Reach-IsReady :
      (p : ℕ)
      → 1 ≤ count p u.state.thread_traces
      → (count p u.state.thread_traces ≡ 1) × IsReady u.state.tracing_paused (u.state.traces p)
  Reach-IsReady p k = (omega (arith, good.0.unique p), good.1 p k)

  -- In every reachable state a registered thread's call of `trace` changes nothing if tracing is
  -- paused, and if it is not and the thread has a buffer, the call puts its entry behind the others
  -- in the place of the oldest.
  pub Reach-traced :
      (self ptr flags cycle : ℕ)
      → 1 ≤ count self u.state.thread_traces
      → let s' = traced self ptr flags cycle u.state in
        let t = u.state.traces self in
        (u.state.tracing_paused ≡ true → (s'.memory ≡ u.state.memory) × (s'.traces self ≡ t))
        × (u.state.tracing_paused ≡ false
            → 1 ≤ t.buf_size
            → chronological (s'.memory, s'.traces self)
              ≡ drop 1 (chronological (u.state.memory, t)) ++ entry_of ptr flags cycle ∷ [])
  Reach-traced self ptr flags cycle k =
      rw
        (update_self self (trace ptr flags cycle (u.state.memory, u.state.traces self)).1
          u.state.traces)
        (IsReady-call u.state.tracing_paused ptr flags cycle u.state.memory (u.state.traces self)
          (good.1 self k))
