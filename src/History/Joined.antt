-- ===== src/History/Joined.antt =====
-- A registration against the logs.
use funtrace.Prelude.{
  ℕ, ◌+◌, ◌≤◌, ◌<◌, ◌≡◌, refl, ap, sym, subst, ◌⊎◌, inl, inr, false, [], ◌∷◌, ◌++◌, All, arith,
  ◌==◌, Bool-cases,
}
use funtrace.TraceBuffer.Layout.{Memory}
use funtrace.TraceBuffer.Mask.{IsAllocated, slots_pos, buf_pos, buf_size-eq}
use funtrace.TraceBuffer.Log.{Holds, Holds-frame, Holds-cong}
use funtrace.TraceBuffer.Outcome.{Outcome}
use funtrace.TraceBuffer.{TraceData, no_buffer}
use funtrace.TraceBuffer
use funtrace.Snapshot.Order.{IsOrdered}
use funtrace.Registry.Pointers.{count, count-append}
use funtrace.Registry.Switch.{AllReady}
use funtrace.Registry.{State, Thread, update, registered}
use funtrace.History.Kept.{Follows, IsFollowed, Follows-cong}
use funtrace.History.Called.{IsReady-IsAllocated, put_log_other}
use funtrace.History.{Logs, Apart, put_log}

-- A thread's registration leaves the place and the buffer as they were allocated.
registered-same :
    (s : State) (thread : Thread) (t : TraceData)
    → ((registered s thread t).pos ≡ t.pos)
      × ((registered s thread t).buf ≡ t.buf)
      × ((registered s thread t).buf_size ≡ t.buf_size)
unfolding TraceBuffer.pause_tracing
registered-same s thread t = elim (Bool-cases s.tracing_paused) [
  | inl e ↦ rw e (refl, refl, refl)
  | inr e ↦ rw e (refl, refl, refl)
]

module _ (s : State) (logs : Logs) (thread : Thread) (r : Memory × TraceData) (ready : AllReady s)
    (h : IsFollowed s logs) (new : count thread.self s.thread_traces ≡ 0)
    (o : Outcome (s.memory, s.traces thread.self) r) where
  abbrev t' : TraceData
  t' = registered s thread r.1

  abbrev joined : State
  joined = record s {
    memory = r.0;
    traces = update thread.self t' s.traces;
    thread_traces = s.thread_traces ++ thread.self ∷ [];
  }

  -- The others were registered before.
  old :
      (p : ℕ)
      → p == thread.self ≡ false
      → 1 ≤ count p joined.thread_traces
      → 1 ≤ count p s.thread_traces
  old p e k = ground (arith, k, count-append p s.thread_traces (thread.self ∷ []))

  module _ (away : (q : ℕ) → 1 ≤ count q s.thread_traces → Apart t' (s.traces q)) where
    abbrev logs' : Logs
    logs' = put_log t'.buf [] logs

    new-Follows : 1 ≤ t'.buf_size → Follows r.0 logs' t'
    new-Follows pos =
        subst (λ log. Holds (r.0, t') log × IsOrdered log × All (λ e. 1 ≤ e.cycle) log) (sym empty)
          (by_outcome o, tt, tt)
      where
        empty : put_log t'.buf [] logs t'.buf ≡ []
        empty = ground arith

        by_outcome : Outcome (s.memory, s.traces thread.self) r → Holds (r.0, t') []
        by_outcome (inl (v, on, holds, outside)) =
            let (e, f, g) = registered-same s thread r.1 in
            Holds-cong r.0 r.0 r.1 t' [] e f g refl refl holds
        by_outcome (inr e) =
            absurd (omega (arith, pos, (registered-same s thread r.1).2, ap (λ r. r.1.buf_size) e))

    old-Follows :
        (p : ℕ)
        → 1 ≤ count p s.thread_traces
        → 1 ≤ (s.traces p).buf_size
        → Follows r.0 logs' (s.traces p)
    old-Follows p k pos = by_outcome o
      where
        v : IsAllocated (s.traces p)
        v = IsReady-IsAllocated s.tracing_paused (s.traces p) (ready p k) pos

        by_outcome : Outcome (s.memory, s.traces thread.self) r → Follows r.0 logs' (s.traces p)
        by_outcome (inr e) =
            Follows-cong s.memory r.0 logs logs' (s.traces p) (s.traces p) (ap (λ r. r.0) e) refl
              refl refl
              (put_log_other t'.buf (s.traces p).buf [] logs
                (ground (arith, (registered-same s thread r.1).1, ap (λ r. r.1.buf) e, buf_pos v)))
              (h.follows p k pos)
        by_outcome (inl (v', on, holds, outside)) =
            let (f, o, a) = h.follows p k pos in
            subst (λ log. Holds (r.0, s.traces p) log × IsOrdered log × All (λ e. 1 ≤ e.cycle) log)
              (sym (
                put_log_other t'.buf (s.traces p).buf [] logs
                  (other (away p k) (omega (arith, slots_pos v', buf_size-eq v')))))
              (
                Holds-frame s.memory r.0 (logs (s.traces p).buf) v
                    (λ x from to. outside x (not_in x from to (away p k))) f,
                o,
                a,
              )
          where
            same : ((t'.pos) ≡ r.1.pos) × (t'.buf ≡ r.1.buf) × (t'.buf_size ≡ r.1.buf_size)
            same = registered-same s thread r.1

            not_in :
                (x : ℕ)
                → (s.traces p).buf ≤ x
                → x < (s.traces p).buf + (s.traces p).buf_size
                → Apart t' (s.traces p)
                → (x < r.1.buf) ⊎ (r.1.buf + r.1.buf_size ≤ x)
            not_in x from to (inl a) = inr (omega (arith, same.1, same.2))
            not_in x from to (inr a) = inl (omega (arith, same.1))

            other : Apart t' (s.traces p) → 1 ≤ r.1.buf_size → (s.traces p).buf == t'.buf ≡ false
            other (inl a) size = ground (arith, same.2, a)
            other (inr a) size = ground (arith, pos, a)

    pub register-IsFollowed : IsFollowed joined logs'
    register-IsFollowed = record {
      follows = λ p k pos. elim (Bool-cases (p == thread.self)) [
        | inl e ↦ rw e (new-Follows (ground arith))
        | inr e ↦ rw e (old-Follows p (old p e k) (ground arith))
      ];
      apart = λ p q k j. elim (Bool-cases (p == thread.self)) [
        | inl e ↦ elim (Bool-cases (q == thread.self)) [
          | inl f ↦ rw (e, f) (inl refl)
          | inr f ↦ rw (e, f) (inr (away q (old q f j)))
        ]
        | inr e ↦ elim (Bool-cases (q == thread.self)) [
          | inl f ↦ rw (e, f) (inr (swapped t' (s.traces p) (away p (old p e k))))
          | inr f ↦ rw (e, f) (h.apart p q (old p e k) (old q f j))
        ]
      ];
    }
      where
        swapped : (t u : TraceData) → Apart t u → Apart u t
        swapped t u (inl a) = inr a
        swapped t u (inr a) = inl a
