-- ===== src/History/Called.antt =====
-- A call of `trace` against the logs.
use funtrace.Prelude.{
  ℕ, ◌+◌, ◌≤◌, ◌<◌, ◌≡◌, refl, sym, subst, ◌⊎◌, inl, inr, Bool, true, false, List, [], ◌∷◌, ◌++◌,
  All, arith, ◌==◌, if◌then◌else◌, Bool-cases, All-append,
}
use funtrace.TraceBuffer.Layout.{TraceEntry, Memory}
use funtrace.TraceBuffer.Mask.{IsAllocated, slots_pos, buf_pos, buf_size-eq}
use funtrace.TraceBuffer.Refine.{IsEnabled, entry_of, SameOutside, trace-SameOutside}
use funtrace.TraceBuffer.Run.{trace-disabled}
use funtrace.TraceBuffer.Log.{Holds, Holds-frame, trace-Holds}
use funtrace.TraceBuffer.{TraceData, trace}
use funtrace.Snapshot.Order.{IsOrdered}
use funtrace.Registry.Pointers.{count}
use funtrace.Registry.Ready.{IsReady}
use funtrace.Registry.Ledger.{IsBalanced}
use funtrace.Registry.Switch.{AllReady}
use funtrace.Registry.System.{World, call, traced}
use funtrace.Registry.{State, update}
use funtrace.History.Kept.{Follows, IsFollowed, Keeps, Keeps-IsFollowed, block-unshared}
use funtrace.History.{Logs, Apart, Obeys, logged, put_log}

IsOrdered-snoc :
    (es : List TraceEntry) (e : TraceEntry)
    → IsOrdered es
    → All (λ f. f.cycle ≤ e.cycle) es
    → IsOrdered (es ++ e ∷ [])
IsOrdered-snoc [] e h k = (tt, tt)
IsOrdered-snoc (x ∷ es) e h k =
    (All-append (λ f. x.cycle ≤ f.cycle) es (e ∷ []) h.0 (k.0, tt), IsOrdered-snoc es e h.1 k.1)

-- A registered trace that has a buffer has a well-formed one.
pub IsReady-IsAllocated :
    (paused : Bool) (t : TraceData) → IsReady paused t → 1 ≤ t.buf_size → IsAllocated t
IsReady-IsAllocated paused t (inl (v, m, n)) pos = v
IsReady-IsAllocated paused t (inr (a, b, c)) pos = absurd (omega arith)

pub put_log_other :
    (b x : ℕ) (log : List TraceEntry) (logs : Logs) → x == b ≡ false → put_log b log logs x ≡ logs x
put_log_other b x log logs e = rw e

pub Follows-trace :
    (ptr flags cycle : ℕ) (mem : Memory) (logs : Logs) {t : TraceData}
    → IsAllocated t
    → IsEnabled t
    → 1 ≤ cycle
    → All (λ e. e.cycle ≤ cycle) (logs t.buf)
    → Follows mem logs t
    → let (mem', t') = trace ptr flags cycle (mem, t) in
      Follows mem' (put_log t.buf (logs t.buf ++ entry_of ptr flags cycle ∷ []) logs) t'
Follows-trace ptr flags cycle mem logs {t} v on time late (h, o, a) =
    subst
      (λ log.
        Holds (trace ptr flags cycle (mem, t)) log × IsOrdered log × All (λ e. 1 ≤ e.cycle) log)
      (sym here)
      (
        trace-Holds v on mem (logs t.buf) ptr flags cycle h,
        IsOrdered-snoc (logs t.buf) e o late,
        All-append (λ e. 1 ≤ e.cycle) (logs t.buf) (e ∷ []) a (time, tt),
      )
  where
    e : TraceEntry
    e = entry_of ptr flags cycle

    here :
        put_log t.buf (logs t.buf ++ e ∷ []) logs (trace ptr flags cycle (mem, t)).1.buf
        ≡ logs t.buf ++ e ∷ []
    here = ground (arith, (trace-SameOutside v on mem ptr flags cycle).0)

-- A call that records nothing.
pub disabled-Keeps :
    (self ptr flags cycle : ℕ) (s : State)
    → trace ptr flags cycle (s.memory, s.traces self) ≡ (s.memory, s.traces self)
    → Keeps s (traced self ptr flags cycle s)
disabled-Keeps self ptr flags cycle s e =
    rw e (refl, λ p k. (p, k, (same p).0, (same p).1, (same p).2))
  where
    same :
        (p : ℕ)
        → let t = update self (s.traces self) s.traces p in
          (t.pos ≡ (s.traces p).pos)
          × (t.buf ≡ (s.traces p).buf)
          × (t.buf_size ≡ (s.traces p).buf_size)
    same p = elim (Bool-cases (p == self)) [
      | inl e ↦ let at : p ≡ self = ground arith in rw (e, at) (refl, refl, refl)
      | inr e ↦ rw e (refl, refl, refl)
    ]

module _ (w : World) (logs : Logs) (self ptr flags cycle : ℕ)
    (known : 1 ≤ count self w.state.thread_traces) (b : IsBalanced w) (ready : AllReady w.state)
    (h : IsFollowed w.state logs) where
  abbrev s : State
  s = w.state

  abbrev t : TraceData
  t = s.traces self

  abbrev logs' : Logs
  logs' = put_log t.buf (logs t.buf ++ entry_of ptr flags cycle ∷ []) logs

  unbuffered-IsFollowed :
      (t.buf ≡ 0) → (t.pos ≡ 0) → IsFollowed (traced self ptr flags cycle s) logs'
  unbuffered-IsFollowed null none =
      Keeps-IsFollowed s (traced self ptr flags cycle s) logs logs'
        (disabled-Keeps self ptr flags cycle s
          (trace-disabled ptr flags cycle t s.memory (inr none)))
        (λ p k pos. put_log_other t.buf (s.traces p).buf _ logs (
          ground (
            arith,
            null,
            buf_pos (IsReady-IsAllocated s.tracing_paused (s.traces p) (ready p k) pos),
          )))
        h

  module _ (v : IsAllocated t) (on : IsEnabled t) (time : 1 ≤ cycle)
      (late : All (λ e. e.cycle ≤ cycle) (logs t.buf)) where
    abbrev r : Memory × TraceData
    r = trace ptr flags cycle (s.memory, t)

    same : SameOutside (s.memory, t) r
    same = trace-SameOutside v on s.memory ptr flags cycle

    other_buffer :
        (p : ℕ)
        → 1 ≤ count p s.thread_traces
        → p == self ≡ false
        → (s.traces p).buf == t.buf ≡ false
    other_buffer p k e = block-unshared w p self b k known e (buf_pos v)

    other-Apart : (p : ℕ) → 1 ≤ count p s.thread_traces → p == self ≡ false → Apart (s.traces p) t
    other-Apart p k e = by_apart (other_buffer p k e) (h.apart p self k known)
      where
        by_apart :
            (s.traces p).buf == t.buf ≡ false
            → ((s.traces p).buf ≡ t.buf) ⊎ Apart (s.traces p) t
            → Apart (s.traces p) t
        by_apart ne (inl e) = absurd (ground arith)
        by_apart ne (inr a) = a

    other-Follows :
        (p : ℕ)
        → 1 ≤ count p s.thread_traces
        → 1 ≤ (s.traces p).buf_size
        → p == self ≡ false
        → Follows r.0 logs' (s.traces p)
    other-Follows p k pos e =
        let (f, o, a) = h.follows p k pos in
        subst (λ log. Holds (r.0, s.traces p) log × IsOrdered log × All (λ e. 1 ≤ e.cycle) log)
          (sym (put_log_other t.buf (s.traces p).buf _ logs (other_buffer p k e)))
          (
            Holds-frame s.memory r.0 (logs (s.traces p).buf)
                (IsReady-IsAllocated s.tracing_paused (s.traces p) (ready p k) pos)
                (λ x from to. same.3 x (outside x from to (other-Apart p k e))) f,
            o,
            a,
          )
      where
        outside :
            (x : ℕ)
            → (s.traces p).buf ≤ x
            → x < (s.traces p).buf + (s.traces p).buf_size
            → Apart (s.traces p) t
            → (x < t.buf) ⊎ (t.buf + t.buf_size ≤ x)
        outside x from to (inl a) = inl (omega arith)
        outside x from to (inr a) = inr (omega arith)

    enabled-IsFollowed : IsFollowed (traced self ptr flags cycle s) logs'
    enabled-IsFollowed = record {
      follows = λ p k pos. elim (Bool-cases (p == self)) [
        | inl e ↦ rw e (
            Follows-trace ptr flags cycle s.memory logs v on time late
              (h.follows self known (ground (arith, slots_pos v, buf_size-eq v))))
        | inr e ↦ rw e (other-Follows p k (ground arith) e)
      ];
      apart = λ p q k j. rw (place p, size p, place q, size q) (h.apart p q k j);
    }
      where
        place : (p : ℕ) → (update self r.1 s.traces p).buf ≡ (s.traces p).buf
        place p = elim (Bool-cases (p == self)) [
          | inl e ↦ let at : p ≡ self = ground arith in rw (e, at) same.0
          | inr e ↦ rw e
        ]

        size : (p : ℕ) → (update self r.1 s.traces p).buf_size ≡ (s.traces p).buf_size
        size p = elim (Bool-cases (p == self)) [
          | inl e ↦ let at : p ≡ self = ground arith in rw (e, at) same.1
          | inr e ↦ rw e
        ]

  pub call-IsFollowed :
      Obeys {w = w} (call self ptr flags cycle known) logs
      → IsFollowed
          (traced self ptr flags cycle s)
          (logged {w = w} (call self ptr flags cycle known) logs)
  call-IsFollowed (time, late) = by_switch s.tracing_paused refl (ready self known)
    where
      by_switch :
          (paused : Bool)
          → s.tracing_paused ≡ paused
          → IsReady s.tracing_paused t
          → IsFollowed (traced self ptr flags cycle s) (if paused then logs else logs')
      by_switch true e (inl (v, m, n)) =
          Keeps-IsFollowed s (traced self ptr flags cycle s) logs logs
            (disabled-Keeps self ptr flags cycle s
              (trace-disabled ptr flags cycle t s.memory (inl (m e))))
            (λ p k pos. refl) h
      by_switch true e (inr (size, null, none)) =
          Keeps-IsFollowed s (traced self ptr flags cycle s) logs logs
            (disabled-Keeps self ptr flags cycle s
              (trace-disabled ptr flags cycle t s.memory (inr none)))
            (λ p k pos. refl) h
      by_switch false e (inl (v, m, n)) = enabled-IsFollowed v (n e) time late
      by_switch false e (inr (size, null, none)) = unbuffered-IsFollowed null none
