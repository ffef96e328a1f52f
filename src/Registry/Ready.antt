-- ===== src/Registry/Ready.antt =====
-- What holds of each registered trace between any two steps: its buffer is well-formed, or there is
-- none, and its mask follows the registry's switch.
use funtrace.Prelude.{ℕ, ◌≡◌, refl, ap, sym, ◌∙◌, inl, inr, ◌⊎◌, Bool, true, false, lognot}
use funtrace.TraceBuffer.Layout.{Memory}
use funtrace.TraceBuffer.Mask.{IsAllocated}
use funtrace.TraceBuffer.Refine.{IsEnabled, trace-IsAllocated, trace-IsEnabled}
use funtrace.TraceBuffer.Run.{trace-disabled}
use funtrace.TraceBuffer.{TraceData, trace, free, no_buffer, update_name}
use funtrace.TraceBuffer

-- A well-formed buffer whose mask is 0 while tracing is paused and enables it otherwise, or none.
abbrev pub IsReady : Bool → TraceData → Type 0
IsReady paused t =
    (IsAllocated t × (paused ≡ true → t.wraparound_mask ≡ 0) × (paused ≡ false → IsEnabled t))
    ⊎ ((t.buf_size ≡ 0) × (t.buf ≡ 0) × (t.pos ≡ 0))

pub IsAllocated-cong :
    (t t' : TraceData)
    → t'.pos ≡ t.pos
    → t'.buf ≡ t.buf
    → t'.buf_size ≡ t.buf_size
    → IsAllocated t
    → IsAllocated t'
IsAllocated-cong t t' e f g v = record {
  log = v.log;
  log_min = v.log_min;
  log_max = v.log_max;
  size = g ∙ v.size;
  base = v.base;
  aligned = f ∙ v.aligned;
  not_null = v.not_null;
  in_space = v.in_space;
  at_entry = rw (e, f) v.at_entry;
  in_buffer = rw (e, f, g) v.in_buffer;
}

pub IsReady-pause :
    (paused : Bool) (t : TraceData) → IsReady paused t → IsReady true (TraceBuffer.pause_tracing t)
unfolding TraceBuffer.pause_tracing
IsReady-pause paused t (inl (v, m, n)) =
    inl (IsAllocated-cong t _ refl refl refl v, (λ e. refl), (λ e. cc))
IsReady-pause paused t (inr h) = inr h

pub IsReady-resume :
    (paused : Bool) (t : TraceData)
    → IsReady paused t
    → IsReady false (TraceBuffer.resume_tracing t)
unfolding TraceBuffer.resume_tracing
IsReady-resume paused t (inl (v, m, n)) =
    inl (IsAllocated-cong t _ refl refl refl v, (λ e. cc), (λ e. refl))
IsReady-resume paused t (inr h) = inr h

-- A change of other fields.
pub IsReady-cong :
    (paused : Bool) (t t' : TraceData)
    → t'.pos ≡ t.pos
    → t'.buf ≡ t.buf
    → t'.buf_size ≡ t.buf_size
    → t'.wraparound_mask ≡ t.wraparound_mask
    → IsReady paused t
    → IsReady paused t'
IsReady-cong paused t t' e f g m (inl (v, z, n)) =
    inl (IsAllocated-cong t t' e f g v, (λ p. m ∙ z p), (λ p. m ∙ n p ∙ ap lognot (sym g)))
IsReady-cong paused t t' e f g m (inr (a, b, c)) = inr (g ∙ a, f ∙ b, e ∙ c)

pub IsReady-trace :
    (paused : Bool) (ptr flags cycle : ℕ) (mem : Memory) (t : TraceData)
    → IsReady paused t
    → IsReady paused (trace ptr flags cycle (mem, t)).1
IsReady-trace true ptr flags cycle mem t (inl (v, m, n)) =
    rw (trace-disabled ptr flags cycle t mem (inl (m refl))) (inl (v, m, n))
IsReady-trace false ptr flags cycle mem t (inl (v, m, n)) = inl (
  trace-IsAllocated v (n refl) mem ptr flags cycle,
  (λ e. cc),
  (λ e. trace-IsEnabled v (n refl) mem ptr flags cycle),
)
IsReady-trace paused ptr flags cycle mem t (inr (a, b, c)) =
    rw (trace-disabled ptr flags cycle t mem (inr c)) (inr (a, b, c))
