-- ===== src/Registry/Carried.antt =====
-- The traces that are registered before and after a thread leaves, a collection, or a renaming.
use funtrace.Prelude.{
  ℕ, zero, suc, ◌≤◌, ◌<◌, ◌≡◌, refl, ap, sym, ◌∙◌, subst, inl, inr, Bool, true, false, List, ◌∷◌,
  arith, ltb, ltb→lt, ◌==◌, if◌then◌else◌, length, get_or, set, is_zero, Bool-cases,
}
use funtrace.TraceBuffer.{TraceData, free, update_name}
use funtrace.Registry.Pointers.{count, swap_remove, count-swap_remove, count-set}
use funtrace.Registry.Pause.{update_name-traces}
use funtrace.Registry.Unregister.{search, is_freed}
use funtrace.Registry.Ledger.{IsBalanced, count-swap_remove_once}
use funtrace.Registry.Balanced.{collect-IsBalanced}
use funtrace.Registry.System.{World, names_updated}
use funtrace.Registry.{
  State, Thread, update, finished, unregister_at, unregister_this_thread, is_kept, collect_from,
  collect_garbage,
}
use funtrace.Registry

-- Two objects with the same buffer, position and mask.
abbrev pub Same : TraceData → TraceData → Type 0
Same t' t =
    (t'.pos ≡ t.pos)
    × (t'.buf ≡ t.buf)
    × (t'.buf_size ≡ t.buf_size)
    × (t'.wraparound_mask ≡ t.wraparound_mask)

abbrev pub Carried : State → State → Type 0
Carried s s' =
    (s'.memory ≡ s.memory)
    × (s'.tracing_paused ≡ s.tracing_paused)
    × ((p : ℕ)
        → 1 ≤ count p s'.thread_traces
        → (q : ℕ) × (1 ≤ count q s.thread_traces) × Same (s'.traces p) (s.traces q))

pub Carried-refl : (s : State) → Carried s s
Carried-refl s = (refl, refl, λ p k. (p, k, (refl, refl, refl, refl)))

Carried-trans : (s t u : State) → Carried s t → Carried t u → Carried s u
Carried-trans s t u (m, e, f) (n, g, h) = (
  n ∙ m,
  g ∙ e,
  λ p k.
      let (q, l, a) = h p k in
      let (r, j, b) = f q l in (r, j, (a.0 ∙ b.0, a.1 ∙ b.1, a.2 ∙ b.2, a.3 ∙ b.3)),
)

renamed-Same : (getname : ℕ → List ℕ) (t : TraceData) → Same (update_name getname t) t
renamed-Same getname t = unfold update_name in ground arith

pub name-Carried : (getname : ℕ → List ℕ) (s : State) → Carried s (names_updated getname s)
name-Carried getname s = (
  refl,
  refl,
  λ p k. (
    p,
    k,
    subst (λ t. Same t (s.traces p)) (sym (update_name-traces s p k getname))
        (renamed-Same getname (s.traces p)),
  ),
)

-- A trace is taken out, and its object changes.
removed-Carried :
    (w : World) (i q : ℕ) (t : TraceData) (s' : State)
    → IsBalanced w
    → i < length w.state.thread_traces
    → get_or w.state.thread_traces i 0 ≡ q
    → s'.memory ≡ w.state.memory
    → s'.thread_traces ≡ swap_remove i w.state.thread_traces
    → s'.traces ≡ update q t w.state.traces
    → s'.tracing_paused ≡ w.state.tracing_paused
    → Carried w.state s'
removed-Carried w i q t s' b l g memory e f m = (
  memory,
  m,
  λ p k. (
    p,
    omega (arith, left p k, count-swap_remove p ps i l),
    rw (f, other p (left p k)) (refl, refl, refl, refl),
  ),
)
  where
    ps : List ℕ
    ps = w.state.thread_traces

    left : (p : ℕ) → 1 ≤ count p s'.thread_traces → 1 ≤ count p (swap_remove i ps)
    left p k = rw (← e) k

    gone : count q (swap_remove i ps) ≡ 0
    gone = count-swap_remove_once q i ps (b.unique q) l g

    other : (p : ℕ) → 1 ≤ count p (swap_remove i ps) → p == q ≡ false
    other p k = elim (Bool-cases (p == q)) [
      | inl x ↦
          let same : p ≡ q = ground arith in
          absurd (omega (arith, k, gone, ap (λ x. count x (swap_remove i ps)) same))
      | inr x ↦ x
    ]

collect-Carried :
    (w : World) (i : ℕ)
    → IsBalanced w
    → i < length w.state.thread_traces
    → Carried w.state (Registry.collect i (get_or w.state.thread_traces i 0) w.state)
collect-Carried w i b l =
    removed-Carried w i (get_or w.state.thread_traces i 0)
      (free (w.state.traces (get_or w.state.thread_traces i 0)))
      (Registry.collect i (get_or w.state.thread_traces i 0) w.state) b l refl
      (unfold Registry.collect in refl) (unfold Registry.collect in refl)
      (unfold Registry.collect in refl) (unfold Registry.collect in refl)

collect_from-Carried :
    (now fuel i : ℕ) (w : World) → IsBalanced w → Carried w.state (collect_from now fuel i w.state)
unfolding collect_from
collect_from-Carried now zero i w b = Carried-refl w.state
collect_from-Carried now (suc fuel) i w b =
    elim (Bool-cases (ltb i (length w.state.thread_traces))) [
      | inr e ↦ rw (e, collect_from) (Carried-refl w.state)
      | inl e ↦ elim (Bool-cases (is_kept now w.state (get_or w.state.thread_traces i 0))) [
        | inl k ↦ rw (e, k, collect_from) (collect_from-Carried now fuel (suc i) w b)
        | inr k ↦
            rw (e, k, collect_from)
              (Carried-trans w.state (Registry.collect i (get_or w.state.thread_traces i 0) w.state)
                (collect_from now fuel i
                  (Registry.collect i (get_or w.state.thread_traces i 0) w.state))
                (collect-Carried w i b (ltb→lt i _ e))
                (collect_from-Carried now fuel i
                  (record w {
                    state = Registry.collect i (get_or w.state.thread_traces i 0) w.state;
                  })
                  (collect-IsBalanced w i b (ltb→lt i _ e))))
      ]
    ]

pub collect_garbage-Carried :
    (w : World) (now : ℕ) (exiting_program : Bool)
    → IsBalanced w
    → Carried w.state (collect_garbage now exiting_program w.state)
unfolding collect_garbage
collect_garbage-Carried w now exiting_program b =
    elim (Bool-cases (is_zero w.state.gc_max_age_ms)) [
      | inl e ↦ rw e (Carried-refl w.state)
      | inr e ↦ rw e (loop exiting_program)
    ]
  where
    noted : State
    noted = record (w.state) { exiting = true }

    loop :
        (c : Bool)
        → Carried w.state (
            let s' = if c then noted else w.state in
            collect_from now (length s'.thread_traces) 0 s')
    loop true =
        collect_from-Carried now (length w.state.thread_traces) 0 (record w { state = noted })
          (record { unique = b.unique; balance = b.balance; single = b.single })
    loop false = collect_from-Carried now (length w.state.thread_traces) 0 w b

module _ (w : World) (b : IsBalanced w) where
  abbrev ps : List ℕ
  ps = w.state.thread_traces

  -- A trace's copy takes its place.
  replaced-Carried :
      (copy i self : ℕ) (t : TraceData)
      → i < length ps
      → 1 ≤ count self ps
      → Same t (w.state.traces self)
      → Carried w.state (record (w.state) {
        traces = update copy t w.state.traces;
        thread_traces = set ps i copy;
      })
  replaced-Carried copy i self t l known same = (
    refl,
    refl,
    λ p k. elim (Bool-cases (p == copy)) [
      | inl e ↦ (self, known, rw e same)
      | inr e ↦ (p, ground (arith, k, count-set p ps i copy l), rw e (refl, refl, refl, refl))
    ],
  )

  unregister_at-Carried :
      (getname : ℕ → List ℕ) (now copy : ℕ) (thread : Thread) (defer_free : Bool) (i : ℕ)
      → i < length ps
      → get_or ps i 0 ≡ thread.self
      → Carried w.state (unregister_at getname now copy thread defer_free i w.state)
  unfolding unregister_at
  unregister_at-Carried getname now copy thread defer_free i l g =
      elim (Bool-cases (is_freed defer_free w.state)) [
        | inl e ↦ rw e (
            removed-Carried w i thread.self (free (w.state.traces thread.self)) freed b l g refl
              refl refl refl)
        | inr e ↦ rw e (
            replaced-Carried copy i thread.self (finished getname now (w.state.traces thread.self))
              l (ground (arith, count-swap_remove thread.self ps i l, g))
              (renamed-Same getname (w.state.traces thread.self)))
      ]
    where
      freed : State
      freed = record (w.state) {
        traces = update thread.self (free (w.state.traces thread.self)) w.state.traces;
        released = (w.state.traces thread.self).buf ∷ w.state.released;
        thread_traces = swap_remove i ps;
      }

  pub unregister-Carried :
      (getname : ℕ → List ℕ) (now copy : ℕ) (thread : Thread) (defer_free : Bool)
      → Carried w.state (unregister_this_thread getname now copy thread defer_free w.state)
  unfolding unregister_this_thread
  unregister-Carried getname now copy thread defer_free = elim (search thread.self ps) [
    | inr (f, c) ↦ rw (f, unregister_this_thread) (Carried-refl w.state)
    | inl (i, f, l, g) ↦
        rw (f, unregister_this_thread)
          (unregister_at-Carried getname now copy thread defer_free i l g)
  ]
