-- ===== src/TraceBuffer/Refine.antt =====
-- `trace_data::trace` against a window of the newest entries that slides over the thread's
-- history.
use funtrace.Prelude.{
  ℕ, suc, ◌+◌, ◌*◌, ◌≤◌, ◌<◌, ◌≡◌, refl, ap, ap₂, sym, ◌∙◌, ◌⊎◌, inl, inr, List, [], ◌∷◌, ◌++◌,
  ◌==◌, arith, drop, lognot, bit_or, bit_and, Bool-cases, true,
}
use funtrace.TraceBuffer.Layout.{
  TraceEntry, Memory, store, entry_size, entries_at, length-entries_at, entries_at-store,
}
use funtrace.TraceBuffer.Mask.{
  slots, index, wrap, IsAllocated, masked, wrap-lt, buf_pos, buf_size-eq,
}
use funtrace.TraceBuffer.Window.{rotate, rotate-set, rotate_end}
use funtrace.TraceBuffer.{TraceData, trace}

-- The buffer is not paused.
abbrev pub IsEnabled : TraceData → Type 0
IsEnabled t = t.wraparound_mask ≡ lognot t.buf_size

-- What a call of `trace` records.
abbrev pub entry_of : ℕ → ℕ → ℕ → TraceEntry
entry_of ptr flags cycle = record { func = bit_or ptr flags; cycle = cycle }

-- The entries of a buffer from the oldest to the newest.
abbrev pub chronological : Memory × TraceData → List TraceEntry
chronological (mem, t) = rotate (index t) (entries_at mem t.buf (slots t))

-- The memory outside the buffer, and the fields that `trace` leaves alone.
abbrev pub SameOutside : Memory × TraceData → Memory × TraceData → Type 0
SameOutside (mem, t) (mem', t') =
    (t'.buf ≡ t.buf)
    × (t'.buf_size ≡ t.buf_size)
    × (t'.thread ≡ t.thread)
    × ((a : ℕ) → (a < t.buf) ⊎ (t.buf + t.buf_size ≤ a) → mem' a ≡ mem a)

pub SameOutside-trans :
    (r s u : Memory × TraceData) → SameOutside r s → SameOutside s u → SameOutside r u
SameOutside-trans r s u h k = (k.0 ∙ h.0, k.1 ∙ h.1, k.2 ∙ h.2, λ a o. k.3 a (moved a o) ∙ h.3 a o)
  where
    moved :
        (a : ℕ)
        → (a < r.1.buf) ⊎ (r.1.buf + r.1.buf_size ≤ a)
        → (a < s.1.buf) ⊎ (s.1.buf + s.1.buf_size ≤ a)
    moved a o = rw (h.0, h.1) o

-- The state after `trace` writes entry `i` of the buffer.
abbrev pub written : ℕ → TraceEntry → Memory × TraceData → Memory × TraceData
written i e (mem, t) =
    (store mem (t.buf + entry_size * i) e, record t { pos = t.buf + entry_size * i + entry_size })

module _ {t : TraceData} (v : IsAllocated t) (on : IsEnabled t) where
  pub trace-written :
      (mem : Memory) (ptr flags cycle : ℕ)
      → trace ptr flags cycle (mem, t)
        ≡ written (wrap (slots t) (index t)) (entry_of ptr flags cycle) (mem, t)
  unfolding trace
  trace-written mem ptr flags cycle =
      rw (ap (bit_and t.pos) on ∙ masked v) (ground (arith, buf_pos v))

  pub index-written :
      (i : ℕ) (mem : Memory) (e : TraceEntry) → index (written i e (mem, t)).1 ≡ suc i
  index-written i mem e = omega arith

  written-IsAllocated :
      (i : ℕ) (mem : Memory) (e : TraceEntry) → i < slots t → IsAllocated (written i e (mem, t)).1
  written-IsAllocated i mem e h = record {
    log = v.log;
    log_min = v.log_min;
    log_max = v.log_max;
    size = v.size;
    base = v.base;
    aligned = v.aligned;
    not_null = v.not_null;
    in_space = v.in_space;
    at_entry = omega arith;
    in_buffer = omega arith;
  }

  chronological-written :
      (i : ℕ) (mem : Memory) (e : TraceEntry)
      → i < slots t
      → chronological (written i e (mem, t))
        ≡ drop 1 (rotate i (entries_at mem t.buf (slots t))) ++ e ∷ []
  chronological-written i mem e h =
      ap₂ rotate (index-written i mem e) (entries_at-store mem t.buf (slots t) i _ e refl)
      ∙ rotate-set (entries_at mem t.buf (slots t)) i e
          (omega (arith, length-entries_at mem t.buf (slots t)))

  -- The end of the buffer counts as its start.
  rotate-wrap :
      (mem : Memory)
      → rotate (wrap (slots t) (index t)) (entries_at mem t.buf (slots t)) ≡ chronological (mem, t)
  rotate-wrap mem = elim (Bool-cases (index t == slots t)) [
    | inl e ↦ rw e (
        sym (
          rotate_end (entries_at mem t.buf (slots t)) (index t)
            (omega (arith, length-entries_at mem t.buf (slots t), full e))))
    | inr e ↦ rw e
  ]
    where
      full : (index t == slots t) ≡ true → index t ≡ slots t
      full e = ground arith

  pub trace-IsAllocated :
      (mem : Memory) (ptr flags cycle : ℕ) → IsAllocated (trace ptr flags cycle (mem, t)).1
  trace-IsAllocated mem ptr flags cycle =
      rw (trace-written mem ptr flags cycle)
        (written-IsAllocated _ mem (entry_of ptr flags cycle) (wrap-lt v))

  pub trace-IsEnabled :
      (mem : Memory) (ptr flags cycle : ℕ) → IsEnabled (trace ptr flags cycle (mem, t)).1
  trace-IsEnabled mem ptr flags cycle = rw (trace-written mem ptr flags cycle) on

  -- The oldest entry goes, and the new one comes last.
  pub chronological-trace :
      (mem : Memory) (ptr flags cycle : ℕ)
      → chronological (trace ptr flags cycle (mem, t))
        ≡ drop 1 (chronological (mem, t)) ++ entry_of ptr flags cycle ∷ []
  chronological-trace mem ptr flags cycle =
      ap chronological (trace-written mem ptr flags cycle)
      ∙ chronological-written _ mem (entry_of ptr flags cycle) (wrap-lt v)
      ∙ ap (λ l. drop 1 l ++ entry_of ptr flags cycle ∷ []) (rotate-wrap mem)

  -- A call writes one entry inside the buffer, and moves only the position.
  pub trace-SameOutside :
      (mem : Memory) (ptr flags cycle : ℕ) → SameOutside (mem, t) (trace ptr flags cycle (mem, t))
  trace-SameOutside mem ptr flags cycle =
      rw (trace-written mem ptr flags cycle) (refl, refl, refl, λ a h. outside a h)
    where
      inside : t.buf + entry_size * suc (wrap (slots t) (index t)) ≤ t.buf + t.buf_size
      inside = omega (arith, wrap-lt v, buf_size-eq v)

      outside :
          (a : ℕ)
          → (a < t.buf) ⊎ (t.buf + t.buf_size ≤ a)
          → (written (wrap (slots t) (index t)) (entry_of ptr flags cycle) (mem, t)).0 a ≡ mem a
      outside a h = ground (arith, inside)
