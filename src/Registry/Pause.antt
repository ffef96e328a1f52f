-- ===== src/Registry/Pause.antt =====
-- Pausing and resuming: what the loops over the registered traces do to each trace.
use funtrace.Prelude.{ℕ, ◌≤◌, ◌≡◌, refl, ◌∙◌, List, [], ◌∷◌, arith, ◌==◌, if◌then◌else◌}
use funtrace.TraceBuffer.{TraceData}
use funtrace.TraceBuffer
use funtrace.Registry.Pointers.{count}
use funtrace.Registry.{State, update, modify_all, pause_tracing, resume_tracing}

-- A change that does nothing more when it is made again is made once of each registered trace.
pub modify_all_idempotent :
    (f : TraceData → TraceData) (ps : List ℕ) (traces : ℕ → TraceData) (x : ℕ)
    → ((t : TraceData) → f (f t) ≡ f t)
    → modify_all f ps traces x ≡ (if count x ps == 0 then traces x else f (traces x))
unfolding modify_all
modify_all_idempotent f [] traces x h = refl
modify_all_idempotent f (p ∷ ps) traces x h =
    modify_all_idempotent f ps (update p (f (traces p)) traces) x h
    ∙ ground (arith, h (traces x), h (traces p))

module _ (s : State) (p : ℕ) (member : 1 ≤ count p s.thread_traces) where
  registered_once :
      (f : TraceData → TraceData)
      → ((t : TraceData) → f (f t) ≡ f t)
      → modify_all f s.thread_traces s.traces p ≡ f (s.traces p)
  registered_once f h = modify_all_idempotent f s.thread_traces s.traces p h ∙ ground arith

  -- A registered trace is paused, and resumed.
  pub pause_tracing-traces : (pause_tracing s).traces p ≡ TraceBuffer.pause_tracing (s.traces p)
  unfolding pause_tracing TraceBuffer.pause_tracing
  pause_tracing-traces = registered_once TraceBuffer.pause_tracing (λ t. refl)

  pub resume_tracing-traces : (resume_tracing s).traces p ≡ TraceBuffer.resume_tracing (s.traces p)
  unfolding resume_tracing TraceBuffer.resume_tracing
  resume_tracing-traces = registered_once TraceBuffer.resume_tracing (λ t. refl)

  -- Its name is read anew.
  pub update_name-traces :
      (getname : ℕ → List ℕ)
      → modify_all (TraceBuffer.update_name getname) s.thread_traces s.traces p
        ≡ TraceBuffer.update_name getname (s.traces p)
  unfolding TraceBuffer.update_name
  update_name-traces getname = registered_once (TraceBuffer.update_name getname) (λ t. ground arith)
