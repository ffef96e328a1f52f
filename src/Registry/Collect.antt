-- ===== src/Registry/Collect.antt =====
-- `collect_garbage`: which traces it deletes, and that it deletes each once.
use funtrace.Prelude.{
  ℕ, zero, suc, ◌+◌, ◌-◌, ◌≤◌, ◌<◌, ◌≡◌, ◌≢◌, refl, ap, ◌∙◌, Bool, true, false, arith, ltb, ◌==◌,
  if◌then◌else◌, length, get_or, Bool-cases, inl, inr, is_zero, ltb→lt, dec_lt,
}
use funtrace.TraceBuffer.{free}
use funtrace.Registry.Pointers.{
  count, one_if, swap_remove, count-swap_remove, get_or-swap_remove, count_none, length-swap_remove,
}
use funtrace.Registry.{State, is_kept, collect, collect_from, collect_garbage}

-- Freeing a trace does not change whether the collector would leave it, or another, alone.
is_kept-collect : (now i p q : ℕ) (s : State) → is_kept now (collect i q s) p ≡ is_kept now s p
unfolding is_kept collect free
is_kept-collect now i p q s = ground arith

-- What a run of the loop from `s` to `s'` has done to pointer `p`.
abbrev Collected : ℕ → State → State → ℕ → Type 0
Collected now s s' p =
    (count p s'.thread_traces ≡ (if is_kept now s p then count p s.thread_traces else 0))
    × (count p s'.deleted
        ≡ count p s.deleted + (if is_kept now s p then 0 else count p s.thread_traces))

-- The traces before place `i` are kept.
abbrev KeptBefore : ℕ → ℕ → State → Type 0
KeptBefore now i s = (j : ℕ) → j < i → is_kept now s (get_or s.thread_traces j 0) ≡ true

module _ (now p : ℕ) where
  finished_loop :
      (i : ℕ) (s : State) → length s.thread_traces ≤ i → KeptBefore now i s → Collected now s s p
  finished_loop i s h kept = elim (Bool-cases (is_kept now s p)) [
    | inl e ↦ rw e (refl, omega arith)
    | inr e ↦ rw e (none_left e, omega (arith, none_left e))
  ]
    where
      none_left : is_kept now s p ≡ false → count p s.thread_traces ≡ 0
      none_left e =
          count_none p s.thread_traces λ j k q. cc (kept j (omega arith), ap (is_kept now s) q, e)

  collect_step :
      (i : ℕ) (s s' : State)
      → i < length s.thread_traces
      → is_kept now s (get_or s.thread_traces i 0) ≡ false
      → Collected now (collect i (get_or s.thread_traces i 0) s) s' p
      → Collected now s s' p
  unfolding collect
  collect_step i s s' h gone c = elim (Bool-cases (is_kept now s p)) [
    | inl e ↦ ground (arith, is_kept-collect now i p q s, taken, other e)
    | inr e ↦ ground (arith, is_kept-collect now i p q s, taken)
  ]
    where
      q : ℕ
      q = get_or s.thread_traces i 0

      taken : count p (swap_remove i s.thread_traces) + one_if (q == p) ≡ count p s.thread_traces
      taken = count-swap_remove p s.thread_traces i h

      other : is_kept now s p ≡ true → q ≢ p
      other e f = cc (gone, ap (is_kept now s) f, e)

  KeptBefore-suc :
      (i : ℕ) (s : State)
      → KeptBefore now i s
      → is_kept now s (get_or s.thread_traces i 0) ≡ true
      → KeptBefore now (suc i) s
  KeptBefore-suc i s kept e j h = elim (dec_lt j i) [
    | yes lt ↦ kept j lt
    | no ge ↦ let same : j ≡ i = omega arith in rw same e
  ]

  KeptBefore-collect :
      (i q : ℕ) (s : State)
      → i < length s.thread_traces
      → KeptBefore now i s
      → KeptBefore now i (collect i q s)
  unfolding collect
  KeptBefore-collect i q s h kept j k =
      is_kept-collect now i (get_or (swap_remove i s.thread_traces) j 0) q s
      ∙ ap (is_kept now s) (get_or-swap_remove i j s.thread_traces k h)
      ∙ kept j k

  length-collect :
      (i q : ℕ) (s : State) → length (collect i q s).thread_traces ≡ length s.thread_traces - 1
  unfolding collect
  length-collect i q s = length-swap_remove i s.thread_traces

  collect_from-Collected :
      (fuel i : ℕ) (s : State)
      → length s.thread_traces - i ≤ fuel
      → KeptBefore now i s
      → Collected now s (collect_from now fuel i s) p
  unfolding collect_from
  collect_from-Collected zero i s h kept = finished_loop i s (omega arith) kept
  collect_from-Collected (suc fuel) i s h kept =
      elim (Bool-cases (ltb i (length s.thread_traces))) [
        | inr e ↦ rw (e, collect_from) (finished_loop i s (ground arith) kept)
        | inl e ↦ elim (Bool-cases (is_kept now s (get_or s.thread_traces i 0))) [
          | inl k ↦
              rw (e, k, collect_from)
                (collect_from-Collected fuel (suc i) s (omega arith) (KeptBefore-suc i s kept k))
          | inr k ↦
              rw (e, k, collect_from)
                (collect_step i s
                  (collect_from now fuel i (collect i (get_or s.thread_traces i 0) s))
                  (ltb→lt i _ e) k
                  (collect_from-Collected fuel i (collect i (get_or s.thread_traces i 0) s)
                    (omega (arith, length-collect i (get_or s.thread_traces i 0) s, ltb→lt i _ e))
                    (KeptBefore-collect i _ s (ltb→lt i _ e) kept)))
        ]
      ]

-- The state in which the collector tests: it has noted whether the program exits.
abbrev pub noted : Bool → State → State
noted exiting_program s = if exiting_program then record s { exiting = true } else s

-- With a maximal age other than 0, the collector leaves each pointer whose trace it tests as alive
-- or recent as often as it stood among the registered traces, takes every other pointer out, and
-- deletes that trace as often as it was registered.
pub collect_garbage-count :
    (now p : ℕ) (exiting_program : Bool) (s : State)
    → is_zero s.gc_max_age_ms ≡ false
    → let s' = collect_garbage now exiting_program s in
      let kept = is_kept now (noted exiting_program s) p in
      (count p s'.thread_traces ≡ (if kept then count p s.thread_traces else 0))
      × (count p s'.deleted ≡ count p s.deleted + (if kept then 0 else count p s.thread_traces))
unfolding collect_garbage
collect_garbage-count now p false s h = rw h (
    collect_from-Collected now p (length s.thread_traces) 0 s (omega arith)
      (λ j k. absurd (omega arith)))
collect_garbage-count now p true s h = rw h (
    collect_from-Collected now p (length s.thread_traces) 0 (record s { exiting = true })
      (omega arith) (λ j k. absurd (omega arith)))
