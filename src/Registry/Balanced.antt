-- ===== src/Registry/Balanced.antt =====
-- Collections, switches and calls keep the books balanced.
use funtrace.Prelude.{
  ℕ, zero, suc, ◌<◌, ◌≡◌, refl, inl, inr, Bool, true, false, List, arith, ltb, ltb→lt,
  if◌then◌else◌, length, get_or, is_zero, Bool-cases,
}
use funtrace.TraceBuffer.Layout.{Memory}
use funtrace.TraceBuffer.{TraceData, MemAlign, allocate, free, trace, update_name}
use funtrace.TraceBuffer
use funtrace.Registry.Blocks.{blocks-update_same, blocks-modify_all}
use funtrace.Registry.Ledger.{IsBalanced, SameBlocks-IsBalanced, Removed-IsBalanced}
use funtrace.Registry.System.{World, traced, names_updated}
use funtrace.Registry.{
  State, Thread, update, registered, register_this_thread, is_kept, collect_from, collect_garbage,
  pause_tracing, resume_tracing,
}
use funtrace.Registry

pub collect-IsBalanced :
    (w : World) (i : ℕ)
    → IsBalanced w
    → i < length w.state.thread_traces
    → IsBalanced
        (record w { state = Registry.collect i (get_or w.state.thread_traces i 0) w.state })
unfolding Registry.collect
collect-IsBalanced w i h l = Removed-IsBalanced w h i _ _ l refl (refl, refl, refl)

collect_from-IsBalanced :
    (now fuel i : ℕ) (w : World)
    → IsBalanced w
    → IsBalanced (record w { state = collect_from now fuel i w.state })
unfolding collect_from
collect_from-IsBalanced now zero i w h = h
collect_from-IsBalanced now (suc fuel) i w h =
    elim (Bool-cases (ltb i (length w.state.thread_traces))) [
      | inr e ↦ rw (e, collect_from) h
      | inl e ↦ elim (Bool-cases (is_kept now w.state (get_or w.state.thread_traces i 0))) [
        | inl k ↦ rw (e, k, collect_from) (collect_from-IsBalanced now fuel (suc i) w h)
        | inr k ↦
            rw (e, k, collect_from)
              (collect_from-IsBalanced now fuel i _ (collect-IsBalanced w i h (ltb→lt i _ e)))
      ]
    ]

pub collect_garbage-IsBalanced :
    (w : World) (now : ℕ) (exiting_program : Bool)
    → IsBalanced w
    → IsBalanced (record w { state = collect_garbage now exiting_program w.state })
unfolding collect_garbage
collect_garbage-IsBalanced w now exiting_program h =
    elim (Bool-cases (is_zero w.state.gc_max_age_ms)) [
      | inl e ↦ rw e h
      | inr e ↦ rw e (loop exiting_program)
    ]
  where
    noted : State
    noted = record (w.state) { exiting = true }

    loop :
        (b : Bool)
        → IsBalanced (record w {
          state =
              let s' = if b then noted else w.state in
              collect_from now (length s'.thread_traces) 0 s';
        })
    loop true =
        collect_from-IsBalanced now (length w.state.thread_traces) 0 (record w { state = noted })
          (record { unique = h.unique; balance = h.balance; single = h.single })
    loop false = collect_from-IsBalanced now (length w.state.thread_traces) 0 w h

pub pause-IsBalanced :
    (w : World) → IsBalanced w → IsBalanced (record w { state = pause_tracing w.state })
unfolding pause_tracing TraceBuffer.pause_tracing
pause-IsBalanced w h = SameBlocks-IsBalanced w _ h refl refl (
    blocks-modify_all TraceBuffer.pause_tracing w.state.thread_traces w.state.traces
      w.state.thread_traces (λ t. refl))

pub resume-IsBalanced :
    (w : World) → IsBalanced w → IsBalanced (record w { state = resume_tracing w.state })
unfolding resume_tracing TraceBuffer.resume_tracing
resume-IsBalanced w h = SameBlocks-IsBalanced w _ h refl refl (
    blocks-modify_all TraceBuffer.resume_tracing w.state.thread_traces w.state.traces
      w.state.thread_traces (λ t. refl))

pub name-IsBalanced :
    (w : World) (getname : ℕ → List ℕ)
    → IsBalanced w
    → IsBalanced (record w { state = names_updated getname w.state })
name-IsBalanced w getname h = SameBlocks-IsBalanced w _ h refl refl (
    blocks-modify_all (update_name getname) w.state.thread_traces w.state.traces
      w.state.thread_traces same)
  where
    same : (t : TraceData) → (update_name getname t).buf ≡ t.buf
    same t = unfold update_name in ground arith

trace-buf :
    (ptr flags cycle : ℕ) (mem : Memory) (t : TraceData)
    → (trace ptr flags cycle (mem, t)).1.buf ≡ t.buf
unfolding trace
trace-buf ptr flags cycle mem t = ground arith

pub call-IsBalanced :
    (w : World) (self ptr flags cycle : ℕ)
    → IsBalanced w
    → IsBalanced (record w { state = traced self ptr flags cycle w.state })
call-IsBalanced w self ptr flags cycle h = SameBlocks-IsBalanced w _ h refl refl (
    blocks-update_same self _ w.state.traces w.state.thread_traces
      (trace-buf ptr flags cycle w.state.memory (w.state.traces self)))
