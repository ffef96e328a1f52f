-- ===== src/Registry/Unregister.antt =====
-- `unregister_this_thread`: how a thread leaves the registry.
use funtrace.Prelude.{
  ℕ, suc, ◌+◌, ◌≤◌, ◌<◌, ◌≡◌, refl, ap, ◌∙◌, ◌⊎◌, inl, inr, Bool, not, ◌||◌, none, some, List, [],
  ◌∷◌, arith, ◌==◌, if◌then◌else◌, length, get_or, is_zero, Bool-cases, dec_lt, ◌≢◌,
}
use funtrace.Registry.Pointers.{count, one_if, find_index, count-set, count-swap_remove}
use funtrace.Registry.{State, Thread, unregister_at, unregister_this_thread}

-- What the search for a pointer finds: a place that holds it, or that there is none.
abbrev Search : ℕ → List ℕ → Type 0
Search p xs =
    ((i : ℕ) × (find_index p xs ≡ some i) × (i < length xs) × (get_or xs i 0 ≡ p))
    ⊎ ((find_index p xs ≡ none) × (count p xs ≡ 0))

pub search : (p : ℕ) (xs : List ℕ) → Search p xs
unfolding find_index
search p [] = inr (refl, refl)
search p (x ∷ xs) = elim (Bool-cases (x == p)) [
  | inl e ↦ inl (0, rw e refl, omega arith, ground arith)
  | inr e ↦ elim (search p xs) [
    | inl (i, f, l, g) ↦ inl (suc i, rw (e, f) refl, omega arith, g)
    | inr (f, c) ↦ inr (rw (e, f) refl, ground arith)
  ]
]

-- Whether the trace of a thread that leaves is freed at once.
abbrev pub is_freed : Bool → State → Bool
is_freed defer_free s = is_zero s.gc_max_age_ms || (not defer_free || s.exiting)

module _ (getname : ℕ → List ℕ) (now copy : ℕ) (thread : Thread) (defer_free : Bool)
    (s : State) where
  -- What the registered pointers and the released blocks become.
  abbrev Left : State → ℕ → Type 0
  Left s' p =
      (count p s'.thread_traces + one_if (thread.self == p)
        ≡ count p s.thread_traces + (if is_freed defer_free s then 0 else one_if (copy == p)))
      × (s'.released
          ≡ (if is_freed defer_free s then (s.traces thread.self).buf ∷ s.released else s.released))

  unregister_at-Left :
      (p i : ℕ)
      → i < length s.thread_traces
      → get_or s.thread_traces i 0 ≡ thread.self
      → Left (unregister_at getname now copy thread defer_free i s) p
  unfolding unregister_at
  unregister_at-Left p i l g = elim (Bool-cases (is_freed defer_free s)) [
    | inl e ↦ rw e (omega (arith, count-swap_remove p s.thread_traces i l, here), refl)
    | inr e ↦ rw e (omega (arith, count-set p s.thread_traces i copy l, here), refl)
  ]
    where
      here : one_if (get_or s.thread_traces i 0 == p) ≡ one_if (thread.self == p)
      here = ap (λ v. one_if (v == p)) g

  -- A registered thread that leaves takes one occurrence of its trace out of the registry. Where the
  -- trace is not left to the garbage collector its block is released, and nothing else; where it
  -- is, no block is, and the copy stands in its place.
  pub unregister_this_thread-count :
      (p : ℕ)
      → 1 ≤ count thread.self s.thread_traces
      → Left (unregister_this_thread getname now copy thread defer_free s) p
  unfolding unregister_this_thread
  unregister_this_thread-count p h = elim (search thread.self s.thread_traces) [
    | inr (f, c) ↦ absurd (omega arith)
    | inl (i, f, l, g) ↦ rw (f, unregister_this_thread) (unregister_at-Left p i l g)
  ]

  -- A thread that is not registered changes nothing when it leaves.
  not_registered :
      count thread.self s.thread_traces ≡ 0
      → unregister_this_thread getname now copy thread defer_free s ≡ s
  unfolding unregister_this_thread
  not_registered h = elim (search thread.self s.thread_traces) [
    | inr (f, c) ↦ rw (f, unregister_this_thread) refl
    | inl (i, f, l, g) ↦
        absurd (ground (arith, count-swap_remove thread.self s.thread_traces i l, g))
  ]

-- A thread that is registered once, and whose copy is a new object, leaves once: leaving again
-- changes nothing, however either call treats the buffer.
pub unregister_this_thread-unregister_this_thread :
    (getname : ℕ → List ℕ) (now copy : ℕ) (thread : Thread) (defer_free : Bool) (now' copy' : ℕ)
    (defer_free' : Bool) (s : State)
    → count thread.self s.thread_traces ≤ 1
    → copy ≢ thread.self
    → unregister_this_thread getname now' copy' thread defer_free'
        (unregister_this_thread getname now copy thread defer_free s)
      ≡ unregister_this_thread getname now copy thread defer_free s
unregister_this_thread-unregister_this_thread getname now copy thread defer_free now' copy'
      defer_free' s h fresh =
    not_registered getname now' copy' thread defer_free' left gone
  where
    left : State
    left = unregister_this_thread getname now copy thread defer_free s

    gone : count thread.self left.thread_traces ≡ 0
    gone = elim (dec_lt 0 (count thread.self s.thread_traces)) [
      | no n ↦
          ap (λ s'. count thread.self s'.thread_traces)
            (not_registered getname now copy thread defer_free s (omega arith))
          ∙ omega arith
      | yes y ↦ ground (
        arith,
        fresh,
        (unregister_this_thread-count getname now copy thread defer_free s thread.self y).0,
      )
    ]
