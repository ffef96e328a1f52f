-- ===== src/Registry/Registering.antt =====
-- What registration does, and any order of steps, against the books on blocks.
use funtrace.Prelude.{
  ℕ, ◌+◌, ◌≤◌, ◌≡◌, ap, ◌∙◌, inl, inr, ◌⊎◌, Option, some, List, [], ◌∷◌, ◌++◌, arith, ◌==◌, ◌>>=◌,
  Bool-cases, Option-cases, ℤ,
}
use funtrace.Config.{Env}
use funtrace.TraceBuffer.Layout.{Memory}
use funtrace.TraceBuffer.{TraceData, MemAlign, allocate}
use funtrace.Registry.Pointers.{count, one_if, count-append}
use funtrace.Registry.Blocks.{blocks-update_other}
use funtrace.Registry.Ledger.{IsBalanced, blocks-append, count-cons, unregister-IsBalanced}
use funtrace.Registry.System.{
  World, Step, Reach, register, unregister, collect, pause, resume, name, call, idle_call, here,
  next, blocks, block_of,
}
use funtrace.Registry.{State, Thread, update, registered, register_this_thread}
use funtrace.Registry.Balanced.{
  collect_garbage-IsBalanced, pause-IsBalanced, resume-IsBalanced, name-IsBalanced, call-IsBalanced,
}

-- What registration does where it is defined.
abbrev pub Registered : Thread → State → State → Memory × TraceData → Type 0
Registered thread s s' r = s' ≡ record s {
  memory = r.0;
  traces = update thread.self (registered s thread r.1) s.traces;
  thread_traces = s.thread_traces ++ thread.self ∷ [];
}

pub register-Registered :
    (getenv : Env) (memalign : MemAlign) (thread : Thread) (n : ℤ) (s s' : State)
    → register_this_thread getenv memalign thread n s ≡ some s'
    → (r : Memory × TraceData) × (allocate getenv memalign n (s.memory, s.traces thread.self)
        ≡ some r)
      × Registered thread s s' r
unfolding register_this_thread
register-Registered getenv memalign thread n s s' e =
    elim (Option-cases (allocate getenv memalign n (s.memory, s.traces thread.self))) [
      | inl f ↦ cc (e, ap (λ o. o >>= next) f)
      | inr (r, f) ↦ (r, f, cc (e, ap (λ o. o >>= next) f))
    ]
  where
    next : Memory × TraceData → Option State
    next r = some (record s {
      memory = r.0;
      traces = update thread.self (registered s thread r.1) s.traces;
      thread_traces = s.thread_traces ++ thread.self ∷ [];
    })

register-IsBalanced :
    (w : World) (thread : Thread) (s' : State) (r : Memory × TraceData)
    → IsBalanced w
    → count thread.self w.state.thread_traces ≡ 0
    → Registered thread w.state s' r
    → (block_of s' thread.self ≡ 0)
      ⊎ (count (block_of s' thread.self) w.allocated
          ≡ count (block_of s' thread.self) w.state.released)
    → IsBalanced (record { state = s'; allocated = block_of s' thread.self ∷ w.allocated })
register-IsBalanced w thread s' r h new shape fresh = record {
  unique = λ q. omega (arith, pointers q, small q);
  balance = λ b pos. omega (arith, h.balance b pos, held b, given b, ap (count b) given_back);
  single = λ b pos. omega (arith, given b, one b pos, ap (count b) given_back);
}
  where
    ps : List ℕ
    ps = w.state.thread_traces

    block : ℕ
    block = block_of s' thread.self

    given_back : s'.released ≡ w.state.released
    given_back = ap (λ s. s.released) shape

    pointers : (q : ℕ) → count q s'.thread_traces ≡ count q ps + one_if (thread.self == q)
    pointers q =
        ap (λ s. count q s.thread_traces) shape
        ∙ omega (arith, count-append q ps (thread.self ∷ []), count-cons q thread.self [])

    small : (q : ℕ) → count q ps + one_if (thread.self == q) ≤ 1
    small q = elim (Bool-cases (thread.self == q)) [
      | inl e ↦
          rw e
            (let same : q ≡ thread.self = ground arith in omega (arith, ap (λ x. count x ps) same))
      | inr e ↦ rw e (omega (arith, h.unique q))
    ]

    new_blocks : blocks s'.traces s'.thread_traces ≡ blocks w.state.traces ps ++ block ∷ []
    new_blocks =
        ap (blocks s'.traces) (ap (λ s. s.thread_traces) shape)
        ∙ blocks-append s'.traces ps thread.self
        ∙ ap (λ l. l ++ block ∷ [])
            (ap (λ s. blocks s.traces ps) shape
              ∙ blocks-update_other thread.self (registered w.state thread r.1) w.state.traces ps
                  new)

    held :
        (b : ℕ)
        → count b (blocks s'.traces s'.thread_traces)
          ≡ count b (blocks w.state.traces ps) + one_if (block == b)
    held b =
        ap (count b) new_blocks
        ∙ omega
            (arith, count-append b (blocks w.state.traces ps) (block ∷ []), count-cons b block [])

    given : (b : ℕ) → count b (block ∷ w.allocated) ≡ one_if (block == b) + count b w.allocated
    given b = count-cons b block w.allocated

    taken :
        {b : ℕ}
        → b ≡ block
        → (block ≡ 0) ⊎ (count block w.allocated ≡ count block w.state.released)
        → 1 ≤ b
        → count b w.allocated + 1 ≤ count b w.state.released + 1
    taken same (inl e) pos = absurd (omega arith)
    taken same (inr e) pos =
        omega
          (arith, e, ap (λ x. count x w.allocated) same, ap (λ x. count x w.state.released) same)

    one : (b : ℕ) → 1 ≤ b → count b w.allocated + one_if (block == b) ≤ count b w.state.released + 1
    one b pos = elim (Bool-cases (block == b)) [
      | inl e ↦ rw e (taken (ground arith) fresh pos)
      | inr e ↦ rw e (omega (arith, h.single b pos))
    ]

-- Every step of a program keeps each trace registered once at most, and the books balanced: each
-- block but null is held by as many registered traces as it was given out and not released, and
-- that is one at most.
pub Step-IsBalanced : {w u : World} → Step w u → IsBalanced w → IsBalanced u
Step-IsBalanced {w} (register getenv memalign thread n s' laws new e fresh) h =
    let (r, f, shape) = register-Registered getenv memalign thread n w.state s' e in
    register-IsBalanced w thread s' r h new shape fresh
Step-IsBalanced {w} (unregister getname now copy thread defer_free new) h =
    unregister-IsBalanced w getname now copy thread defer_free h new
Step-IsBalanced {w} (collect now exiting_program) h =
    collect_garbage-IsBalanced w now exiting_program h
Step-IsBalanced {w} pause h = pause-IsBalanced w h
Step-IsBalanced {w} resume h = resume-IsBalanced w h
Step-IsBalanced {w} (name getname) h = name-IsBalanced w getname h
Step-IsBalanced {w} (call self ptr flags cycle registered) h =
    call-IsBalanced w self ptr flags cycle h
Step-IsBalanced {w} (idle_call self ptr flags cycle other off) h =
    call-IsBalanced w self ptr flags cycle h

pub Reach-IsBalanced : {w u : World} → Reach w u → IsBalanced w → IsBalanced u
Reach-IsBalanced here h = h
Reach-IsBalanced (next r st) h = Step-IsBalanced st (Reach-IsBalanced r h)
