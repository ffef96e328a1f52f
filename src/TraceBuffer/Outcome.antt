-- ===== src/TraceBuffer/Outcome.antt =====
-- What `allocate` can leave behind, whatever is asked for.
use funtrace.Prelude.{
  ℕ, ◌*◌, ◌^◌, ◌≤◌, ◌≡◌, refl, ap, sym, ◌∙◌, inl, inr, ◌⊎◌, none, some, arith, ℤ, pos, negsuc,
  dec_lt, Option-cases, two-pow-pos, subst, [], ◌+◌, ◌<◌, ◌-◌,
}
use mathlib.Core.Option.{some-injective}
use funtrace.Config.{Env}
use funtrace.TraceBuffer.Layout.{Memory, load}
use funtrace.TraceBuffer.Mask.{IsAllocated, slots_pos}
use funtrace.TraceBuffer.Refine.{IsEnabled}
use funtrace.TraceBuffer.Log.{Holds, Holds-nil}
use funtrace.TraceBuffer.Allocate.{
  requested, fresh, size-eq, IsAligned, IsUnsafe, allocate-fresh, allocate-no_buffer,
  allocate_undefined,
}
use funtrace.TraceBuffer.{TraceData, MemAlign, no_buffer, allocate}

-- A fresh and enabled buffer, at whose block alone memory was written, or none.
abbrev pub Outcome : Memory × TraceData → Memory × TraceData → Type 0
Outcome s r =
    (IsAllocated r.1
      × IsEnabled r.1
      × Holds r []
      × ((a : ℕ) → (a < r.1.buf) ⊎ (r.1.buf + r.1.buf_size ≤ a) → r.0 a ≡ s.0 a))
    ⊎ (r ≡ (s.0, no_buffer s.1))

-- The last entry stands in the block.
fresh_outside :
    (log p : ℕ) (s : Memory × TraceData)
    → 4 ≤ log
    → (a : ℕ) → (a < p) ⊎ (p + 2 ^ log ≤ a)
    → (fresh log p s).0 a ≡ s.0 a
fresh_outside log p s h a o = ground (arith, size-eq log h, two-pow-pos (log - 4), o)

module _ (getenv : Env) (memalign : MemAlign) (n : ℤ) (s r : Memory × TraceData)
    (laws : IsAligned memalign) (e : allocate getenv memalign n s ≡ some r) where
  impossible : IsUnsafe memalign (requested getenv n) → Outcome s r
  impossible h = cc (e, allocate_undefined getenv memalign n s h)

  none_left :
      (log : ℕ)
      → requested getenv n ≡ pos log
      → log ≤ 30
      → (log ≡ 0) ⊎ (memalign (2 ^ log * 2) (2 ^ log) ≡ none)
      → Outcome s r
  none_left log q k h =
      inr (some-injective _ _ (sym e ∙ allocate-no_buffer getenv memalign n s log q k h))

  fresh_left :
      (log p : ℕ)
      → requested getenv n ≡ pos log
      → 4 ≤ log
      → log ≤ 30
      → memalign (2 ^ log * 2) (2 ^ log) ≡ some p
      → Outcome s r
  fresh_left log p q h k f =
      let (f', v, on, start, last) = allocate-fresh getenv memalign n s log p laws q h k f in
      subst (Outcome s) (some-injective _ _ (sym f' ∙ e)) (
        inl (
          v,
          on,
          Holds-nil (fresh log p s).0 v start
              (ap (λ a. (load (fresh log p s).0 a).cycle) (omega (arith, slots_pos v)) ∙ last),
          fresh_outside log p s h,
        ))

  by_log : (log : ℕ) → requested getenv n ≡ pos log → Outcome s r
  by_log log q = elim (dec_lt 30 log) [
    | yes h ↦ impossible (rw q (inl h))
    | no h ↦ elim (Option-cases (memalign (2 ^ log * 2) (2 ^ log))) [
      | inl f ↦ none_left log q (omega arith) (inr f)
      | inr (p, f) ↦ elim (dec_lt log 4) [
        | no k ↦ fresh_left log p q (omega arith) (omega arith) f
        | yes k ↦ elim (dec_lt 0 log) [
          | no z ↦ none_left log q (omega arith) (inl (omega arith))
          | yes z ↦ impossible (rw q (inr (omega arith, omega arith, λ g. cc (g, f))))
        ]
      ]
    ]
  ]

  by_request : (z : ℤ) → requested getenv n ≡ z → Outcome s r
  by_request (pos log) q = by_log log q
  by_request (negsuc m) q = impossible (rw q tt)

  pub allocate-Outcome : Outcome s r
  allocate-Outcome = by_request (requested getenv n) refl
