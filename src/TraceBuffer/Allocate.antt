-- ===== src/TraceBuffer/Allocate.antt =====
-- `trace_data::allocate`: the sizes at which it makes a buffer, has none, or writes outside one.
use funtrace.Prelude.{
  ℕ, zero, suc, ◌+◌, ◌-◌, ◌*◌, ◌/◌, ◌^◌, ◌≤◌, ◌<◌, ◌≡◌, ◌≢◌, refl, ap, sym, ◌∙◌, ◌⊎◌, inl, inr,
  none, some, arith, if◌then◌else◌, ℤ, pos, negsuc, is_zero, lognot, two-pow-add, two-pow-pos,
  lt→ltb, Option-cases,
}
use funtrace.Config.{Env, default_log_buf_size}
use funtrace.TraceBuffer.Layout.{Memory, entry_size, load, store}
use funtrace.TraceBuffer.Mask.{slots, index, IsAllocated}
use funtrace.TraceBuffer.Refine.{IsEnabled}
use funtrace.TraceBuffer.{
  TraceData, MemAlign, no_buffer, shift_one, allocate, allocate_log, allocate_block,
}

-- The size that a call asks for: its argument, or the default where that is 0.
abbrev pub requested : Env → ℤ → ℤ
requested getenv n = if is_zero n then default_log_buf_size getenv else n

-- The address that the allocator returns is a multiple of the alignment, not null, of 64 bits.
pub record IsAligned (memalign : MemAlign) : Type 0 where
  pub multiple :
      (alignment size p : ℕ)
      → memalign alignment size ≡ some p
      → (base : ℕ) × (p ≡ base * alignment) × (1 ≤ base)
  pub address : (alignment size p : ℕ) → memalign alignment size ≡ some p → p < 2 ^ 64

-- The state with a fresh buffer of `2 ^ log` bytes at `p`.
abbrev pub fresh : ℕ → ℕ → Memory × TraceData → Memory × TraceData
fresh log p (mem, t) =
    let last = p + entry_size * (2 ^ log / entry_size - 1) in
    (
      store mem last (record (load mem last) { cycle = 0 }),
      record t { buf_size = 2 ^ log; wraparound_mask = lognot (2 ^ log); buf = p; pos = p },
    )

pub size-eq : (log : ℕ) → 4 ≤ log → 2 ^ log ≡ entry_size * 2 ^ (log - 4)
size-eq log h = sym (ap (λ k. 2 ^ k) sums) ∙ two-pow-add 4 (log - 4)
  where
    sums : 4 + (log - 4) ≡ log
    sums = omega arith

-- An address of 64 bits that is a multiple of twice the size has a base of `63 - log` bits.
base-lt :
    (log base p : ℕ) → log ≤ 30 → p ≡ base * (2 ^ log * 2) → p < 2 ^ 64 → base < 2 ^ (63 - log)
base-lt log base p h e lt = grind (arith, whole)
  where
    sums : 63 - log + log ≡ 63
    sums = omega arith

    whole : 2 ^ (63 - log) * 2 ^ log ≡ 2 ^ 63
    whole = sym (two-pow-add (63 - log) log) ∙ ap (λ t. 2 ^ t) sums

module _ (memalign : MemAlign) (s : Memory × TraceData) where
  allocate_log-block :
      (log : ℕ)
      → 1 ≤ log
      → log ≤ 30
      → allocate_log memalign (pos log) s ≡ allocate_block memalign (2 ^ log) s
  unfolding allocate_log shift_one
  allocate_log-block zero h k = absurd (omega arith)
  allocate_log-block (suc n) h k = rw (lt→ltb (suc n) 31 (omega arith))

  allocate_block-fresh :
      (log p : ℕ)
      → 4 ≤ log
      → memalign (2 ^ log * 2) (2 ^ log) ≡ some p
      → allocate_block memalign (2 ^ log) s ≡ some (fresh log p s)
  unfolding allocate_block
  allocate_block-fresh log p h e =
      rw (e, allocate_block) (ground (arith, size-eq log h, two-pow-pos (log - 4)))

fresh-IsAllocated :
    (memalign : MemAlign) (log p : ℕ) (s : Memory × TraceData)
    → IsAligned memalign
    → 4 ≤ log
    → log ≤ 30
    → memalign (2 ^ log * 2) (2 ^ log) ≡ some p
    → IsAllocated (fresh log p s).1
fresh-IsAllocated memalign log p s laws h k e =
    let (base, multiple, base_pos) = laws.multiple (2 ^ log * 2) (2 ^ log) p e in
    record {
      log = log;
      log_min = h;
      log_max = k;
      size = refl;
      base = base;
      aligned = multiple ∙ ap (λ x. base * x) (omega arith);
      not_null = base_pos;
      in_space = base-lt log base p k multiple (laws.address _ _ p e);
      at_entry = omega arith;
      in_buffer = omega arith;
    }

-- The requests that nothing checks.
abbrev pub IsUnsafe : MemAlign → ℤ → Type 0
IsUnsafe memalign (pos log) =
    (30 < log) ⊎ ((1 ≤ log) × (log ≤ 3) × (memalign (2 ^ log * 2) (2 ^ log) ≢ none))
IsUnsafe memalign (negsuc n) = Unit

module _ (memalign : MemAlign) (s : Memory × TraceData) where
  allocate_block-small :
      (size : ℕ)
      → size < entry_size
      → memalign (size * 2) size ≢ none
      → allocate_block memalign size s ≡ none
  unfolding allocate_block
  allocate_block-small size h ne = elim (Option-cases (memalign (size * 2) size)) [
    | inl e ↦ absurd (ne e)
    | inr (p, e) ↦ rw (e, allocate_block) (ground arith)
  ]

  small-lt : (log : ℕ) → log ≤ 3 → 2 ^ log < entry_size
  small-lt zero h = omega arith
  small-lt (suc zero) h = omega arith
  small-lt (suc (suc zero)) h = omega arith
  small-lt (suc (suc (suc zero))) h = omega arith
  small-lt (suc (suc (suc (suc n)))) h = absurd (omega arith)

  allocate_log-IsUnsafe : (log : ℤ) → IsUnsafe memalign log → allocate_log memalign log s ≡ none
  unfolding allocate_log shift_one
  allocate_log-IsUnsafe (negsuc n) h = refl
  allocate_log-IsUnsafe (pos zero) (inl h) = absurd (omega arith)
  allocate_log-IsUnsafe (pos (suc n)) (inl h) = ground arith
  allocate_log-IsUnsafe (pos log) (inr (h, k, ne)) =
      allocate_log-block memalign s log h (omega arith)
      ∙ allocate_block-small (2 ^ log) (small-lt log k) ne

module _ (getenv : Env) (memalign : MemAlign) (n : ℤ) (s : Memory × TraceData) where
  -- A request of 4 to 30, for which the allocator has a block, gives a well-formed, enabled buffer
  -- at that block, with the position at its start and the time of its last entry 0.
  pub allocate-fresh :
      (log p : ℕ)
      → IsAligned memalign
      → requested getenv n ≡ pos log
      → 4 ≤ log
      → log ≤ 30
      → memalign (2 ^ log * 2) (2 ^ log) ≡ some p
      → let (mem', t') = fresh log p s in
        (allocate getenv memalign n s ≡ some (mem', t'))
        × IsAllocated t'
        × IsEnabled t'
        × (index t' ≡ 0)
        × ((load mem' (t'.buf + entry_size * (slots t' - 1))).cycle ≡ 0)
  unfolding allocate
  allocate-fresh log p laws r h k e = (
    ap (λ x. allocate_log memalign x s) r
        ∙ allocate_log-block memalign s log (omega arith) k
        ∙ allocate_block-fresh memalign s log p h e,
    fresh-IsAllocated memalign log p s laws h k e,
    refl,
    omega arith,
    ground arith,
  )

  -- Without a request, or with no block from the allocator, there is no buffer.
  pub allocate-no_buffer :
      (log : ℕ)
      → requested getenv n ≡ pos log
      → log ≤ 30
      → (log ≡ 0) ⊎ (memalign (2 ^ log * 2) (2 ^ log) ≡ none)
      → allocate getenv memalign n s ≡ some (s.0, no_buffer s.1)
  unfolding allocate
  allocate-no_buffer log r k h = ap (λ x. allocate_log memalign x s) r ∙ cases log k h
    where
      cases :
          (log : ℕ)
          → log ≤ 30
          → (log ≡ 0) ⊎ (memalign (2 ^ log * 2) (2 ^ log) ≡ none)
          → allocate_log memalign (pos log) s ≡ some (s.0, no_buffer s.1)
      cases zero k h = refl
      cases (suc n) k (inl e) = absurd (omega arith)
      cases (suc n) k (inr e) =
          allocate_log-block memalign s (suc n) (omega arith) k ∙ rw (e, allocate_block)

  -- A request that is negative, above 30, or of 1 to 3 with a block from the allocator, is
  -- undefined: the shift leaves `int`, or the write of the last entry falls outside the block.
  pub allocate_undefined :
      IsUnsafe memalign (requested getenv n) → allocate getenv memalign n s ≡ none
  unfolding allocate
  allocate_undefined h = allocate_log-IsUnsafe memalign s (requested getenv n) h
