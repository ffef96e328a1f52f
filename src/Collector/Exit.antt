-- ===== src/Collector/Exit.antt =====
-- What is registered once the collector's thread ends.
use funtrace.Prelude.{
  ℕ, zero, suc, ◌≡◌, refl, ap, ◌∙◌, inl, inr, Bool, true, false, List, [], ◌∷◌, ◌++◌, arith, ltb,
  ◌==◌, if◌then◌else◌, length, get_or, is_zero, Bool-cases,
}
use funtrace.TraceBuffer.{free}
use funtrace.Registry.Pointers.{count}
use funtrace.Registry.Collect.{noted, collect_garbage-count}
use funtrace.Registry.{State, is_kept, collect, collect_from, collect_garbage}
use funtrace.Collector.{Wake, gc_loop}

-- The collector changes neither a trace's thread nor the maximal age.
abbrev Same : State → State → Type 0
Same s s' =
    (s'.gc_max_age_ms ≡ s.gc_max_age_ms) × ((p : ℕ) → (s'.traces p).thread ≡ (s.traces p).thread)

collect-Same : (i q : ℕ) (s : State) → Same s (collect i q s)
unfolding collect free
collect-Same i q s = (refl, λ p. ground arith)

collect_from-Same : (now fuel i : ℕ) (s : State) → Same s (collect_from now fuel i s)
unfolding collect_from
collect_from-Same now zero i s = (refl, λ p. refl)
collect_from-Same now (suc fuel) i s = elim (Bool-cases (ltb i (length s.thread_traces))) [
  | inr e ↦ rw (e, collect_from) (refl, λ p. refl)
  | inl e ↦ elim (Bool-cases (is_kept now s (get_or s.thread_traces i 0))) [
    | inl k ↦ rw (e, k, collect_from) (collect_from-Same now fuel (suc i) s)
    | inr k ↦
        let first = collect-Same i (get_or s.thread_traces i 0) s in
        let rest = collect_from-Same now fuel i (collect i (get_or s.thread_traces i 0) s) in
        rw (e, k, collect_from) (rest.0 ∙ first.0, λ p. rest.1 p ∙ first.1 p)
  ]
]

collect_garbage-Same :
    (now : ℕ) (exiting_program : Bool) (s : State) → Same s (collect_garbage now exiting_program s)
unfolding collect_garbage
collect_garbage-Same now exiting_program s = elim (Bool-cases (is_zero s.gc_max_age_ms)) [
  | inl e ↦ rw e (refl, λ p. refl)
  | inr e ↦ rw e (noted-Same exiting_program)
]
  where
    noted-Same :
        (b : Bool) → Same s (collect_from now (length (noted b s).thread_traces) 0 (noted b s))
    noted-Same true = collect_from-Same now (length s.thread_traces) 0 (record s { exiting = true })
    noted-Same false = collect_from-Same now (length s.thread_traces) 0 s

alive :
    (now p : ℕ) (b : Bool) (s : State)
    → (s.traces p).thread == 0 ≡ false
    → is_kept now (noted b s) p ≡ true
unfolding is_kept
alive now p true s e = rw e refl
alive now p false s e = rw e refl

finished :
    (now p : ℕ) (s : State) → (s.traces p).thread == 0 ≡ true → is_kept now (noted true s) p ≡ false
unfolding is_kept
finished now p s e = rw e refl

-- The rounds that end by their time.
abbrev pub timeouts : List ℕ → List Wake
timeouts [] = []
timeouts (now ∷ nows) = record { now = now; exiting = false } ∷ timeouts nows

-- Once the collector's loop has ended, after any number of rounds, no trace of a finished thread is registered,
-- and each trace of a live thread as often as before, given a maximal age other than 0.
pub gc_loop-count :
    (nows : List ℕ) (now p : ℕ) (later : List Wake) (s : State)
    → is_zero s.gc_max_age_ms ≡ false
    → count p
        (gc_loop (timeouts nows ++ record { now = now; exiting = true } ∷ later) s).thread_traces
      ≡ (if (s.traces p).thread == 0 then 0 else count p s.thread_traces)
unfolding gc_loop
gc_loop-count [] now p later s h = elim (Bool-cases ((s.traces p).thread == 0)) [
  | inl e ↦ rw e ((collect_garbage-count now p true s h).0 ∙ rw (finished now p s e) refl)
  | inr e ↦ rw e ((collect_garbage-count now p true s h).0 ∙ rw (alive now p true s e) refl)
]
gc_loop-count (n ∷ nows) now p later s h =
    let same = collect_garbage-Same n false s in
    let rest = gc_loop-count nows now p later (collect_garbage n false s) (ap is_zero same.0 ∙ h) in
    rest
    ∙ ap (λ t. if t == 0 then 0 else count p (collect_garbage n false s).thread_traces) (same.1 p)
    ∙ elim (Bool-cases ((s.traces p).thread == 0)) [
      | inl e ↦ rw e refl
      | inr e ↦ rw e ((collect_garbage-count n p false s h).0 ∙ rw (alive n p false s e) refl)
    ]
