-- ===== src/TraceBuffer/Run.antt =====
-- A thread's calls of `trace` in order, and what a pause or a missing buffer does to them.
use funtrace.Prelude.{
  ℕ, ◌+◌, ◌≤◌, ◌<◌, ◌≡◌, refl, ap, sym, ◌∙◌, ◌⊎◌, inl, inr, List, [], ◌∷◌, ◌++◌, map, arith, length,
  drop, take, bit_and, zero-bit_and, bit_and-zero, append-nil, length-append, length-drop,
  length-take,
}
use funtrace.TraceBuffer.Layout.{TraceEntry, Memory, entries_at, length-entries_at}
use funtrace.TraceBuffer.Mask.{slots, index, IsAllocated, slots_pos}
use funtrace.TraceBuffer.Window.{drop-suc_append}
use funtrace.TraceBuffer.Refine.{
  IsEnabled, chronological, entry_of, trace-IsAllocated, trace-IsEnabled, chronological-trace,
  trace-SameOutside, SameOutside, SameOutside-trans,
}
use funtrace.TraceBuffer.{TraceData, trace}

-- One call of `trace`.
pub record Event : Type 0 where
  pub ptr : ℕ
  pub flags : ℕ
  pub time : ℕ

abbrev pub recorded : Event → TraceEntry
recorded e = entry_of e.ptr e.flags e.time

unfoldable pub trace_all : List Event → Memory × TraceData → Memory × TraceData
trace_all [] s = s
trace_all (e ∷ es) s = trace_all es (trace e.ptr e.flags e.time s)

length-chronological :
    {t : TraceData} → IsAllocated t → (mem : Memory) → 1 ≤ length (chronological (mem, t))
length-chronological {t} v mem = omega (
  arith,
  length-append (drop (index t) xs) (take (index t) xs),
  length-drop (index t) xs,
  length-take (index t) xs,
  length-entries_at mem t.buf (slots t),
  slots_pos v,
)
  where
    xs : List TraceEntry
    xs = entries_at mem t.buf (slots t)

-- Any calls of `trace` on a well-formed and enabled buffer keep it so: the position stays that of
-- an entry of the buffer, or its end.
pub trace_all-IsAllocated :
    (es : List Event) {t : TraceData} (mem : Memory)
    → IsAllocated t
    → IsEnabled t
    → IsAllocated (trace_all es (mem, t)).1 × IsEnabled (trace_all es (mem, t)).1
unfolding trace_all
trace_all-IsAllocated [] mem v on = (v, on)
trace_all-IsAllocated (e ∷ es) mem v on =
    trace_all-IsAllocated es _ (trace-IsAllocated v on mem e.ptr e.flags e.time)
      (trace-IsEnabled v on mem e.ptr e.flags e.time)

-- After any calls of `trace` on a well-formed and enabled buffer, the entries from the oldest to
-- the newest are those of before followed by the new ones, less as many of the oldest as came.
pub chronological-trace_all :
    (es : List Event) {t : TraceData} (mem : Memory)
    → IsAllocated t
    → IsEnabled t
    → chronological (trace_all es (mem, t))
      ≡ drop (length es) (chronological (mem, t) ++ map recorded es)
unfolding trace_all
chronological-trace_all [] mem v on = sym (append-nil _)
chronological-trace_all (e ∷ es) {t} mem v on =
    chronological-trace_all es _ (trace-IsAllocated v on mem e.ptr e.flags e.time)
      (trace-IsEnabled v on mem e.ptr e.flags e.time)
    ∙ ap (λ l. drop (length es) (l ++ map recorded es))
        (chronological-trace v on mem e.ptr e.flags e.time)
    ∙ drop-suc_append (length es) (chronological (mem, t)) (map recorded es) (recorded e)
        (length-chronological v mem)

pub trace_all-SameOutside :
    (es : List Event) {t : TraceData} (mem : Memory)
    → IsAllocated t
    → IsEnabled t
    → SameOutside (mem, t) (trace_all es (mem, t))
unfolding trace_all
trace_all-SameOutside [] mem v on = (refl, refl, refl, λ a h. refl)
trace_all-SameOutside (e ∷ es) {t} mem v on =
    SameOutside-trans (mem, t) (trace e.ptr e.flags e.time (mem, t))
      (trace_all es (trace e.ptr e.flags e.time (mem, t)))
      (trace-SameOutside v on mem e.ptr e.flags e.time)
      (trace_all-SameOutside es _ (trace-IsAllocated v on mem e.ptr e.flags e.time)
        (trace-IsEnabled v on mem e.ptr e.flags e.time))

-- Any calls of `trace` on a well-formed and enabled buffer leave the memory in front of the buffer
-- and behind its end as it was, and keep the buffer's address, its size and the thread.
pub trace_all_outside :
    (es : List Event) (mem : Memory) (a : ℕ) {t : TraceData}
    → IsAllocated t
    → IsEnabled t
    → (a < t.buf) ⊎ (t.buf + t.buf_size ≤ a)
    → let (mem', t') = trace_all es (mem, t) in
      (mem' a ≡ mem a) × (t'.buf ≡ t.buf) × (t'.buf_size ≡ t.buf_size) × (t'.thread ≡ t.thread)
trace_all_outside es mem a v on h =
    let same = trace_all-SameOutside es mem v on in (same.3 a h, same.0, same.1, same.2)

pub trace-disabled :
    (ptr flags time : ℕ) (t : TraceData) (mem : Memory)
    → (t.wraparound_mask ≡ 0) ⊎ (t.pos ≡ 0)
    → trace ptr flags time (mem, t) ≡ (mem, t)
unfolding trace
trace-disabled ptr flags time t mem (inl h) = rw (ap (bit_and t.pos) h ∙ bit_and-zero t.pos)
trace-disabled ptr flags time t mem (inr h) =
    rw (ap (λ x. bit_and x t.wraparound_mask) h ∙ zero-bit_and t.wraparound_mask)

-- A trace whose mask is 0, as while it is paused, or whose position is null, as without a buffer,
-- records nothing: calls of `trace` change neither memory nor the trace.
trace_all-disabled :
    (es : List Event) (t : TraceData) (mem : Memory)
    → (t.wraparound_mask ≡ 0) ⊎ (t.pos ≡ 0)
    → trace_all es (mem, t) ≡ (mem, t)
unfolding trace_all
trace_all-disabled [] t mem h = refl
trace_all-disabled (e ∷ es) t mem h =
    ap (trace_all es) (trace-disabled e.ptr e.flags e.time t mem h) ∙ trace_all-disabled es t mem h
