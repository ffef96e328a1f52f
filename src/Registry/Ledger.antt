-- ===== src/Registry/Ledger.antt =====
-- The books on blocks: who holds each block that the allocator gave out.
use funtrace.Prelude.{
  ℕ, ◌+◌, ◌≤◌, ◌<◌, ◌≡◌, refl, ap, inl, inr, Bool, true, false, List, [], ◌∷◌, ◌++◌, arith, ◌==◌,
  length, get_or, set, Bool-cases,
}
use funtrace.TraceBuffer.{TraceData, free, update_name}
use funtrace.Registry.Pointers.{count, one_if, count-set, swap_remove, count-swap_remove}
use funtrace.Registry.Unregister.{search, is_freed}
use funtrace.Registry.Blocks.{blocks-update_other, count-blocks-swap_remove, count-blocks-set}
use funtrace.Registry.System.{World, blocks}
use funtrace.Registry.{State, Thread, update, finished, unregister_at, unregister_this_thread}

-- Each trace is registered once at most. Each block but null is held by as many registered traces as
-- it was given out and not released, and that is one at most.
pub record IsBalanced (w : World) : Type 0 where
  pub unique : (p : ℕ) → count p w.state.thread_traces ≤ 1
  pub balance :
      (b : ℕ)
      → 1 ≤ b
      → count b (blocks w.state.traces w.state.thread_traces) + count b w.state.released
        ≡ count b w.allocated
  pub single : (b : ℕ) → 1 ≤ b → count b w.allocated ≤ count b w.state.released + 1

pub blocks-append :
    (traces : ℕ → TraceData) (ps : List ℕ) (p : ℕ)
    → blocks traces (ps ++ p ∷ []) ≡ blocks traces ps ++ (traces p).buf ∷ []
blocks-append traces [] p = refl
blocks-append traces (q ∷ ps) p = ap (λ l. (traces q).buf ∷ l) (blocks-append traces ps p)

pub count-cons : (b x : ℕ) (xs : List ℕ) → count b (x ∷ xs) ≡ one_if (x == b) + count b xs
count-cons b x xs = ground arith

-- A state whose registered traces hold the same blocks.
pub SameBlocks-IsBalanced :
    (w : World) (s' : State)
    → IsBalanced w
    → s'.thread_traces ≡ w.state.thread_traces
    → s'.released ≡ w.state.released
    → blocks s'.traces w.state.thread_traces ≡ blocks w.state.traces w.state.thread_traces
    → IsBalanced (record w { state = s' })
SameBlocks-IsBalanced w s' h e f g = record {
  unique = λ p. rw e (h.unique p);
  balance = λ b k. rw (e, f, g) (h.balance b k);
  single = λ b k. rw f (h.single b k);
}

-- What is registered once is not once it is removed.
pub count-swap_remove_once :
    (p i : ℕ) (ps : List ℕ)
    → count p ps ≤ 1
    → i < length ps
    → get_or ps i 0 ≡ p
    → count p (swap_remove i ps) ≡ 0
count-swap_remove_once p i ps h l g = ground (arith, h, count-swap_remove p ps i l, g)

-- The removal of a trace, whose block is released.
abbrev Removed : ℕ → ℕ → State → State → Type 0
Removed i p s s' =
    (s'.thread_traces ≡ swap_remove i s.thread_traces)
    × (s'.released ≡ (s.traces p).buf ∷ s.released)
    × (s'.traces ≡ update p (free (s.traces p)) s.traces)

module _ (w : World) (h : IsBalanced w) (i p : ℕ) (s' : State) where
  abbrev ps : List ℕ
  ps = w.state.thread_traces

  pub Removed-IsBalanced :
      i < length ps
      → get_or ps i 0 ≡ p
      → Removed i p w.state s'
      → IsBalanced (record w { state = s' })
  Removed-IsBalanced l g (e, f, k) = record {
    unique = λ q. rw e (omega (arith, h.unique q, count-swap_remove q ps i l));
    balance = λ b pos.
        rw (e, f, k)
          (omega (
            arith,
            h.balance b pos,
            count-blocks-swap_remove b w.state.traces ps i l,
            ap (λ x. one_if ((w.state.traces x).buf == b)) g,
            count-cons b (w.state.traces p).buf w.state.released,
            ap (count b) (
                blocks-update_other p (free (w.state.traces p)) w.state.traces (swap_remove i ps)
                  gone),
          ));
    single = λ b pos.
        rw f (omega (arith, h.single b pos, count-cons b (w.state.traces p).buf w.state.released));
  }
    where
      gone : count p (swap_remove i ps) ≡ 0
      gone = count-swap_remove_once p i ps (h.unique p) l g

finished-buf :
    (getname : ℕ → List ℕ) (now : ℕ) (t : TraceData) → (finished getname now t).buf ≡ t.buf
unfolding update_name
finished-buf getname now t = ground arith

module _ (w : World) (h : IsBalanced w) where
  -- A trace is copied to an object that is not registered, which takes its place.
  replaced-IsBalanced :
      (copy i p : ℕ) (t : TraceData)
      → i < length w.state.thread_traces
      → get_or w.state.thread_traces i 0 ≡ p
      → count copy w.state.thread_traces ≡ 0
      → t.buf ≡ (w.state.traces p).buf
      → IsBalanced (record w {
        state = record (w.state) {
          traces = update copy t w.state.traces;
          thread_traces = set w.state.thread_traces i copy;
        };
      })
  replaced-IsBalanced copy i p t l g new same = record {
    unique = λ q. elim (Bool-cases (copy == q)) [
      | inl e ↦ ground (arith, count-set q ps i copy l, ap (λ x. count x ps) (equal q e), new)
      | inr e ↦ ground (arith, count-set q ps i copy l, h.unique q)
    ];
    balance = λ b pos. omega (
      arith,
      h.balance b pos,
      count-blocks-set b (update copy t w.state.traces) ps i l copy held,
      ap (count b) (blocks-update_other copy t w.state.traces ps new),
    );
    single = h.single;
  }
    where
      ps : List ℕ
      ps = w.state.thread_traces

      equal : (q : ℕ) → copy == q ≡ true → q ≡ copy
      equal q e = ground arith

      known : 1 ≤ count p ps
      known = ground (arith, count-swap_remove p ps i l, g)

      other : p == copy ≡ false
      other = elim (Bool-cases (p == copy)) [
        | inl e ↦ absurd (omega (arith, known, new, ap (λ x. count x ps) (equal p (ground arith))))
        | inr e ↦ e
      ]

      held :
          (update copy t w.state.traces copy).buf
          ≡ (update copy t w.state.traces (get_or ps i 0)).buf
      held = rw (g, other) (ground (arith, same))

  unregister_at-IsBalanced :
      (getname : ℕ → List ℕ) (now copy : ℕ) (thread : Thread) (defer_free : Bool) (i : ℕ)
      → i < length w.state.thread_traces
      → get_or w.state.thread_traces i 0 ≡ thread.self
      → count copy w.state.thread_traces ≡ 0
      → IsBalanced (record w { state = unregister_at getname now copy thread defer_free i w.state })
  unfolding unregister_at
  unregister_at-IsBalanced getname now copy thread defer_free i l g new =
      elim (Bool-cases (is_freed defer_free w.state)) [
        | inl e ↦ rw e (Removed-IsBalanced w h i thread.self _ l g (refl, refl, refl))
        | inr e ↦ rw e (
            replaced-IsBalanced copy i thread.self _ l g new
              (finished-buf getname now (w.state.traces thread.self)))
      ]

pub unregister-IsBalanced :
    (w : World) (getname : ℕ → List ℕ) (now copy : ℕ) (thread : Thread) (defer_free : Bool)
    → IsBalanced w
    → count copy w.state.thread_traces ≡ 0
    → IsBalanced
        (record w { state = unregister_this_thread getname now copy thread defer_free w.state })
unfolding unregister_this_thread
unregister-IsBalanced w getname now copy thread defer_free h new =
    elim (search thread.self w.state.thread_traces) [
      | inr (f, c) ↦ rw (f, unregister_this_thread) h
      | inl (i, f, l, g) ↦
          rw (f, unregister_this_thread)
            (unregister_at-IsBalanced w h getname now copy thread defer_free i l g new)
    ]
