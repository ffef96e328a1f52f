-- ===== src/History/Kept.antt =====
-- The buffers of registered traces against their logs, in steps that record no call.
use funtrace.Prelude.{
  ℕ, ◌≤◌, ◌≡◌, refl, ap, sym, ◌∙◌, subst, ◌⊎◌, inl, inr, false, List, [], ◌∷◌, All, arith, ◌==◌,
  Bool-cases,
}
use funtrace.TraceBuffer.Layout.{Memory, load, entries_at}
use funtrace.TraceBuffer.Mask.{slots}
use funtrace.TraceBuffer.Log.{Holds, Holds-cong, last_entry}
use funtrace.TraceBuffer.{TraceData}
use funtrace.TraceBuffer
use funtrace.Snapshot.Order.{IsOrdered}
use funtrace.Registry.Pointers.{count}
use funtrace.Registry.Pause.{pause_tracing-traces, resume_tracing-traces}
use funtrace.Registry.Ledger.{IsBalanced}
use funtrace.Registry.Carried.{Carried}
use funtrace.Registry.System.{World, blocks}
use funtrace.Registry.{State, pause_tracing, resume_tracing}
use funtrace.History.{Logs, Apart}

-- A log of time stamps that are not 0 and do not go down, of which the buffer holds the newest.
abbrev pub Follows : Memory → Logs → TraceData → Type 0
Follows mem logs t =
    Holds (mem, t) (logs t.buf) × IsOrdered (logs t.buf) × All (λ e. 1 ≤ e.cycle) (logs t.buf)

-- Each registered trace with a buffer follows its log; different buffers are apart.
pub record IsFollowed (s : State) (logs : Logs) : Type 0 where
  pub follows :
      (p : ℕ)
      → 1 ≤ count p s.thread_traces
      → 1 ≤ (s.traces p).buf_size
      → Follows s.memory logs (s.traces p)
  pub apart :
      (p q : ℕ)
      → 1 ≤ count p s.thread_traces
      → 1 ≤ count q s.thread_traces
      → ((s.traces p).buf ≡ (s.traces q).buf) ⊎ Apart (s.traces p) (s.traces q)

-- Each trace registered afterwards has the place and the buffer of one that was.
abbrev pub Keeps : State → State → Type 0
Keeps s s' =
    (s'.memory ≡ s.memory)
    × ((p : ℕ)
        → 1 ≤ count p s'.thread_traces
        → (q : ℕ) × (1 ≤ count q s.thread_traces)
          × ((s'.traces p).pos ≡ (s.traces q).pos)
          × ((s'.traces p).buf ≡ (s.traces q).buf)
          × ((s'.traces p).buf_size ≡ (s.traces q).buf_size))

pub Carried-Keeps : (s s' : State) → Carried s s' → Keeps s s'
Carried-Keeps s s' (m, e, f) =
    (m, λ p k. let (q, l, same) = f p k in (q, l, same.0, same.1, same.2))

pub pause-Keeps : (s : State) → Keeps s (pause_tracing s)
unfolding pause_tracing TraceBuffer.pause_tracing
pause-Keeps s = (
  refl,
  λ p k.
      let e = pause_tracing-traces s p k in
      (p, k, ap (λ t. t.pos) e, ap (λ t. t.buf) e, ap (λ t. t.buf_size) e),
)

pub resume-Keeps : (s : State) → Keeps s (resume_tracing s)
unfolding resume_tracing TraceBuffer.resume_tracing
resume-Keeps s = (
  refl,
  λ p k.
      let e = resume_tracing-traces s p k in
      (p, k, ap (λ t. t.pos) e, ap (λ t. t.buf) e, ap (λ t. t.buf_size) e),
)

pub Follows-cong :
    (mem mem' : Memory) (logs logs' : Logs) (t t' : TraceData)
    → mem' ≡ mem
    → t'.pos ≡ t.pos
    → t'.buf ≡ t.buf
    → t'.buf_size ≡ t.buf_size
    → logs' t.buf ≡ logs t.buf
    → Follows mem logs t
    → Follows mem' logs' t'
Follows-cong mem mem' logs logs' t t' m e f g l (h, o, a) =
    subst (λ log. Holds (mem', t') log × IsOrdered log × All (λ e. 1 ≤ e.cycle) log)
      (sym (ap logs' f ∙ l))
      (
        Holds-cong mem mem' t t' (logs t.buf) e f g (ap (λ m. entries_at m t.buf (slots t)) m)
            (ap (λ m. (load m (last_entry t)).cycle) m) h,
        o,
        a,
      )

pub Keeps-IsFollowed :
    (s s' : State) (logs logs' : Logs)
    → Keeps s s'
    → ((p : ℕ)
        → 1 ≤ count p s.thread_traces
        → 1 ≤ (s.traces p).buf_size
        → logs' (s.traces p).buf ≡ logs (s.traces p).buf)
    → IsFollowed s logs
    → IsFollowed s' logs'
Keeps-IsFollowed s s' logs logs' (m, f) same h = record {
  follows = λ p k pos.
      let (q, l, e, b, n) = f p k in
      let some_buffer : 1 ≤ (s.traces q).buf_size = omega (arith, n) in
      Follows-cong s.memory s'.memory logs logs' (s.traces q) (s'.traces p) m e b n
        (same q l some_buffer) (h.follows q l some_buffer);
  apart = λ p q k j.
      let (p', k', e, b, n) = f p k in
      let (q', j', e', b', n') = f q j in rw (b, n, b', n') (h.apart p' q' k' j');
}

count-blocks_known :
    (traces : ℕ → TraceData) (ps : List ℕ) (p b : ℕ)
    → 1 ≤ count p ps
    → (traces p).buf ≡ b
    → 1 ≤ count b (blocks traces ps)
count-blocks_known traces [] p b k e = absurd (omega arith)
count-blocks_known traces (x ∷ ps) p b k e = elim (Bool-cases (x == p)) [
  | inl f ↦ let same : x ≡ p = ground arith in ground (arith, ap (λ x. (traces x).buf) same, e)
  | inr f ↦ omega (arith, count-blocks_known traces ps p b (ground arith) e)
]

count-blocks_two :
    (traces : ℕ → TraceData) (ps : List ℕ) (p q b : ℕ)
    → 1 ≤ count p ps
    → 1 ≤ count q ps
    → p == q ≡ false
    → (traces p).buf ≡ b
    → (traces q).buf ≡ b
    → 2 ≤ count b (blocks traces ps)
count-blocks_two traces [] p q b k j ne e f = absurd (omega arith)
count-blocks_two traces (x ∷ ps) p q b k j ne e f = elim (Bool-cases (x == p)) [
  | inl g ↦
      let same : x ≡ p = ground arith in
      ground
        (arith, ap (λ x. (traces x).buf) same, e, count-blocks_known traces ps q b (ground arith) f)
  | inr g ↦ elim (Bool-cases (x == q)) [
    | inl g' ↦
        let same : x ≡ q = ground arith in
        ground (
          arith,
          ap (λ x. (traces x).buf) same,
          f,
          count-blocks_known traces ps p b (ground arith) e,
        )
    | inr g' ↦ omega (arith, count-blocks_two traces ps p q b (ground arith) (ground arith) ne e f)
  ]
]

-- No block but null is shared.
pub block-unshared :
    (w : World) (p q : ℕ)
    → IsBalanced w
    → 1 ≤ count p w.state.thread_traces
    → 1 ≤ count q w.state.thread_traces
    → p == q ≡ false
    → 1 ≤ (w.state.traces q).buf
    → (w.state.traces p).buf == (w.state.traces q).buf ≡ false
block-unshared w p q h k j ne pos = elim (Bool-cases ((w.state.traces p).buf == b)) [
  | inr e ↦ e
  | inl e ↦ absurd (
      omega (
        arith,
        count-blocks_two w.state.traces w.state.thread_traces p q b k j ne (ground arith) refl,
        h.balance b pos,
        h.single b pos,
      ))
]
  where
    b : ℕ
    b = (w.state.traces q).buf
