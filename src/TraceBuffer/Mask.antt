-- ===== src/TraceBuffer/Mask.antt =====
-- What the alignment of a buffer gives: masking out one bit of the incremented position goes
-- round the buffer.
use funtrace.Prelude.{
  ℕ, ◌+◌, ◌-◌, ◌*◌, ◌/◌, ◌^◌, ◌≤◌, ◌<◌, ◌≡◌, ap, ap₂, sym, ◌∙◌, inl, inr, ◌==◌, if◌then◌else◌,
  arith, bit_and, bit_and_clear, lognot, two-pow-add, two-pow-pos, Bool-cases,
}
use funtrace.TraceBuffer.Layout.{entry_size}
use funtrace.TraceBuffer.{TraceData}

-- `buf_size/sizeof(trace_entry)`
abbrev pub slots : TraceData → ℕ
slots t = t.buf_size / entry_size

-- The number of entries between `buf` and `pos`.
abbrev pub index : TraceData → ℕ
index t = (t.pos - t.buf) / entry_size

-- A buffer as `allocate` makes it: of `2 ^ log` bytes, aligned to twice that, inside the address
-- space; the position is that of an entry, or the end.
pub record IsAllocated (t : TraceData) : Type 0 where
  pub log : ℕ
  pub log_min : 4 ≤ log
  pub log_max : log ≤ 30
  pub size : t.buf_size ≡ 2 ^ log
  pub base : ℕ
  pub aligned : t.buf ≡ base * (2 * 2 ^ log)
  pub not_null : 1 ≤ base
  pub in_space : base < 2 ^ (63 - log)
  pub at_entry : t.pos ≡ t.buf + entry_size * index t
  pub in_buffer : index t ≤ slots t

-- The index that the next entry goes to.
abbrev pub wrap : ℕ → ℕ → ℕ
wrap n i = if i == n then 0 else i

module _ {t : TraceData} (v : IsAllocated t) where
  open v use {log, log_min, log_max, size, base, aligned, not_null, in_space, at_entry, in_buffer}

  pub buf_size-eq : t.buf_size ≡ entry_size * slots t
  buf_size-eq = omega (arith, two-pow-add 4 (log - 4), exponent)
    where
      sums : 4 + (log - 4) ≡ log
      sums = omega arith

      exponent : 2 ^ (4 + (log - 4)) ≡ 2 ^ log
      exponent = ap (λ k. 2 ^ k) sums

  pub slots_pos : 1 ≤ slots t
  slots_pos = omega (arith, two-pow-pos log, buf_size-eq)

  pub buf_size-lt : t.buf_size < 2 ^ 64
  buf_size-lt = omega (arith, size, whole, two-pow-pos (63 - log), grow (2 ^ (63 - log)) (2 ^ log))
    where
      sums : 63 - log + log ≡ 63
      sums = omega arith

      whole : 2 ^ (63 - log) * 2 ^ log ≡ 2 ^ 63
      whole = sym (two-pow-add (63 - log) log) ∙ ap (λ k. 2 ^ k) sums

      grow : (a b : ℕ) → 1 ≤ a → b ≤ a * b
      grow a b h = grind arith

  pub buf_pos : 1 ≤ t.buf
  buf_pos = grind (arith, two-pow-pos log)

  -- The mask of a position that is split at the bit of the buffer's size.
  masked_split :
      (b r : ℕ)
      → b ≤ 1
      → r < 2 ^ log
      → t.pos ≡ (2 * base + b) * 2 ^ log + r
      → bit_and t.pos (lognot t.buf_size) ≡ t.buf + r
  masked_split b r hb hr e =
      ap₂ (λ x s. bit_and x (lognot s)) e size
      ∙ bit_and_clear log base b r (omega arith) hb hr in_space
      ∙ omega (arith, aligned)

  masked_inside :
      index t < slots t → bit_and t.pos (lognot t.buf_size) ≡ t.buf + entry_size * index t
  masked_inside h =
      masked_split 0 (entry_size * index t) (omega arith) (omega (arith, buf_size-eq))
        (omega (arith, aligned, at_entry))

  masked_end : index t ≡ slots t → bit_and t.pos (lognot t.buf_size) ≡ t.buf
  masked_end h =
      masked_split 1 0 (omega arith) (omega (arith, two-pow-pos log))
        (omega (arith, aligned, at_entry, buf_size-eq))
      ∙ omega arith

  -- The masked position is the address of the next entry to write, inside the buffer.
  pub masked : bit_and t.pos (lognot t.buf_size) ≡ t.buf + entry_size * wrap (slots t) (index t)
  masked = elim (Bool-cases (index t == slots t)) [
    | inl e ↦ rw e (masked_end (ground arith) ∙ omega arith)
    | inr e ↦ rw e (masked_inside (ground arith))
  ]

  pub wrap-lt : wrap (slots t) (index t) < slots t
  wrap-lt = ground (arith, slots_pos)
