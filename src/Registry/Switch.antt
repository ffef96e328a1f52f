-- ===== src/Registry/Switch.antt =====
-- Switches and calls, against the switch that pauses tracing.
use funtrace.Prelude.{
  ℕ, ◌≤◌, ◌≡◌, ap, arith, sym, subst, inl, inr, Bool, true, false, ◌==◌, Bool-cases,
}
use funtrace.TraceBuffer.{TraceData}
use funtrace.Registry.Pointers.{count}
use funtrace.Registry.Pause.{pause_tracing-traces, resume_tracing-traces}
use funtrace.Registry.Ready.{IsReady, IsReady-pause, IsReady-resume, IsReady-cong, IsReady-trace}
use funtrace.Registry.Carried.{Carried}
use funtrace.Registry.System.{traced}
use funtrace.Registry.{State, update, pause_tracing, resume_tracing}

-- Each registered trace is ready for what the registry's switch says.
abbrev pub AllReady : State → Type 0
AllReady s = (p : ℕ) → 1 ≤ count p s.thread_traces → IsReady s.tracing_paused (s.traces p)

pub pause-AllReady : (s : State) → AllReady s → AllReady (pause_tracing s)
unfolding pause_tracing
pause-AllReady s h p k =
    subst (IsReady true) (sym (pause_tracing-traces s p k))
      (IsReady-pause s.tracing_paused (s.traces p) (h p k))

pub resume-AllReady : (s : State) → AllReady s → AllReady (resume_tracing s)
unfolding resume_tracing
resume-AllReady s h p k =
    subst (IsReady false) (sym (resume_tracing-traces s p k))
      (IsReady-resume s.tracing_paused (s.traces p) (h p k))

-- A step that keeps the switch, the masks and the places.
pub Carried-AllReady : (s s' : State) → Carried s s' → AllReady s → AllReady s'
Carried-AllReady s s' (m, e, f) h p k =
    let (q, l, same) = f p k in
    subst (λ b. IsReady b (s'.traces p)) (sym e)
      (IsReady-cong s.tracing_paused (s.traces q) (s'.traces p) same.0 same.1 same.2 same.3 (h q l))

-- One object changes.
pub updated-IsReady :
    (paused : Bool) (q p : ℕ) (t : TraceData) (traces : ℕ → TraceData)
    → IsReady paused t
    → (p == q ≡ false → IsReady paused (traces p))
    → IsReady paused (update q t traces p)
updated-IsReady paused q p t traces h k = elim (Bool-cases (p == q)) [
  | inl e ↦ rw e h
  | inr e ↦ rw e (k e)
]

pub call-AllReady :
    (self ptr flags cycle : ℕ) (s : State)
    → 1 ≤ count self s.thread_traces
    → AllReady s
    → AllReady (traced self ptr flags cycle s)
call-AllReady self ptr flags cycle s known h p k =
    updated-IsReady s.tracing_paused self p _ s.traces
      (IsReady-trace s.tracing_paused ptr flags cycle s.memory (s.traces self) (h self known))
      (λ e. h p k)

-- The call of a thread that is not registered touches no registered trace.
pub idle-AllReady :
    (self ptr flags cycle : ℕ) (s : State)
    → count self s.thread_traces ≡ 0
    → AllReady s
    → AllReady (traced self ptr flags cycle s)
idle-AllReady self ptr flags cycle s other h p k = elim (Bool-cases (p == self)) [
  | inl e ↦
      let same : p ≡ self = ground arith in
      absurd (omega (arith, k, other, ap (λ q. count q s.thread_traces) same))
  | inr e ↦ rw e (h p k)
]
