-- ===== src/TraceBuffer/Log.antt =====
-- A buffer against the log of all that its thread recorded: the entries that the buffer still holds.
use funtrace.Prelude.{
  ℕ, zero, suc, ◌+◌, ◌-◌, ◌*◌, ◌≤◌, ◌<◌, ◌≡◌, refl, ap, ap₂, sym, ◌∙◌, subst, List, [], ◌∷◌, ◌++◌,
  arith, length, drop, take, set, dec_lt, drop-drop, drop-append_le, drop_all, length-append,
  length-set,
}
use funtrace.TraceBuffer.Layout.{
  TraceEntry, Memory, load, store, entry_size, entries_at, length-entries_at, entries_at-store,
}
use funtrace.TraceBuffer.Mask.{slots, index, IsAllocated, slots_pos, buf_size-eq}
use funtrace.TraceBuffer.Window.{rotate, take-set}
use funtrace.TraceBuffer.Refine.{
  IsEnabled, entry_of, chronological, written, trace-written, chronological-trace, index-written,
}
use funtrace.TraceBuffer.{TraceData, trace}

-- The address of the last entry.
abbrev pub last_entry : TraceData → ℕ
last_entry t = t.buf + entry_size * slots t - entry_size

-- Before the position has gone round, the buffer's front is the log, and its last entry was never
-- written; after that, the buffer holds the newest entries of the log.
abbrev pub Holds : Memory × TraceData → List TraceEntry → Type 0
Holds (mem, t) log =
    (length log < slots t
      → (index t ≡ length log)
        × (take (index t) (entries_at mem t.buf (slots t)) ≡ log)
        × ((load mem (last_entry t)).cycle ≡ 0))
    × (slots t ≤ length log → chronological (mem, t) ≡ drop (length log - slots t) log)

pub Holds-nil :
    (mem : Memory) {t : TraceData}
    → IsAllocated t
    → index t ≡ 0
    → (load mem (last_entry t)).cycle ≡ 0
    → Holds (mem, t) []
Holds-nil mem {t} v e c = (
  λ h. (e, ap (λ i. take i (entries_at mem t.buf (slots t))) e, c),
  λ h. absurd (omega (arith, slots_pos v)),
)

-- The same entries at the same place.
pub Holds-cong :
    (mem mem' : Memory) (t t' : TraceData) (log : List TraceEntry)
    → t'.pos ≡ t.pos
    → t'.buf ≡ t.buf
    → t'.buf_size ≡ t.buf_size
    → entries_at mem' t.buf (slots t) ≡ entries_at mem t.buf (slots t)
    → (load mem' (last_entry t)).cycle ≡ (load mem (last_entry t)).cycle
    → Holds (mem, t) log
    → Holds (mem', t') log
Holds-cong mem mem' t t' log e f g same last h = rw (e, f, g, same, last) h

entries_at-same :
    (mem mem' : Memory) (a n : ℕ)
    → ((x : ℕ) → a ≤ x → x < a + entry_size * n → mem' x ≡ mem x)
    → entries_at mem' a n ≡ entries_at mem a n
unfolding entries_at
entries_at-same mem mem' a zero h = refl
entries_at-same mem mem' a (suc n) h =
    ap₂ ◌∷◌ (h a (omega arith) (omega arith))
      (entries_at-same mem mem' (a + entry_size) n (λ x k l. h x (omega arith) (omega arith)))

-- Writes outside the buffer.
pub Holds-frame :
    (mem mem' : Memory) {t : TraceData} (log : List TraceEntry)
    → IsAllocated t
    → ((x : ℕ) → t.buf ≤ x → x < t.buf + t.buf_size → mem' x ≡ mem x)
    → Holds (mem, t) log
    → Holds (mem', t) log
Holds-frame mem mem' {t} log v h =
    Holds-cong mem mem' t t log refl refl refl
      (entries_at-same mem mem' t.buf (slots t) (λ x k l. h x k (omega (arith, buf_size-eq v))))
      (ap (λ e. e.cycle)
        (h (last_entry t) (omega (arith, slots_pos v)) (omega (arith, slots_pos v, buf_size-eq v))))

module _ {t : TraceData} (v : IsAllocated t) (on : IsEnabled t) (mem : Memory)
    (log : List TraceEntry) (holds : Holds (mem, t) log) (e : TraceEntry) where
  abbrev entries : List TraceEntry
  entries = entries_at mem t.buf (slots t)

  length-snoc : length (log ++ e ∷ []) ≡ length log + 1
  length-snoc = length-append log (e ∷ [])

  written-front :
      length log < slots t → take (suc (length log)) (set entries (length log) e) ≡ log ++ e ∷ []
  written-front h =
      take-set entries (length log) e (omega (arith, length-entries_at mem t.buf (slots t)))
      ∙ ap (λ l. l ++ e ∷ []) (ap (λ i. take i entries) (sym (holds.0 h).0) ∙ (holds.0 h).1)

  -- The next entry in front of the end.
  written-Holds : length log < slots t → Holds (written (length log) e (mem, t)) (log ++ e ∷ [])
  written-Holds h = (
    λ k. (
      index-written v on (length log) mem e ∙ omega (arith, length-snoc),
      ap₂ take (index-written v on (length log) mem e) stored ∙ written-front h,
      ground (arith, k, length-snoc, (holds.0 h).2, slots_pos v),
    ),
    λ k.
        ap₂ rotate (index-written v on (length log) mem e) stored
        ∙ ap₂ ◌++◌
            (drop_all (suc (length log)) (set entries (length log) e)
              (omega (arith, sizes, k, length-snoc)))
            (written-front h)
        ∙ ap (λ j. drop j (log ++ e ∷ [])) {x = 0} (omega (arith, length-snoc)),
  )
    where
      stored :
          entries_at (store mem (t.buf + entry_size * length log) e) t.buf (slots t)
          ≡ set entries (length log) e
      stored = entries_at-store mem t.buf (slots t) (length log) _ e refl

      sizes : length (set entries (length log) e) ≡ slots t
      sizes = length-set entries (length log) e ∙ length-entries_at mem t.buf (slots t)

-- A call puts its entry behind the log.
pub trace-Holds :
    {t : TraceData} (v : IsAllocated t) (on : IsEnabled t) (mem : Memory) (log : List TraceEntry)
    (ptr flags cycle : ℕ)
    → Holds (mem, t) log
    → Holds (trace ptr flags cycle (mem, t)) (log ++ entry_of ptr flags cycle ∷ [])
trace-Holds {t} v on mem log ptr flags cycle holds = elim (dec_lt (length log) (slots t)) [
  | yes h ↦
      subst (λ s. Holds s (log ++ e ∷ [])) (sym (next h)) (written-Holds v on mem log holds e h)
  | no h ↦ (λ k. absurd (omega (arith, shorter k)), λ k. after (omega arith))
]
  where
    e : TraceEntry
    e = entry_of ptr flags cycle

    same_slots : slots (trace ptr flags cycle (mem, t)).1 ≡ slots t
    same_slots = ap slots (ap (λ s. s.1) (trace-written v on mem ptr flags cycle))

    next : length log < slots t → trace ptr flags cycle (mem, t) ≡ written (length log) e (mem, t)
    next h =
        trace-written v on mem ptr flags cycle
        ∙ ap (λ i. written i e (mem, t)) (ground (arith, (holds.0 h).0))

    shorter :
        length (log ++ e ∷ []) < slots (trace ptr flags cycle (mem, t)).1 → length log < slots t
    shorter k = omega (arith, same_slots, length-append log (e ∷ []))

    after :
        slots t ≤ length log
        → chronological (trace ptr flags cycle (mem, t))
          ≡ drop (length (log ++ e ∷ []) - slots (trace ptr flags cycle (mem, t)).1) (log ++ e ∷ [])
    after h =
        chronological-trace v on mem ptr flags cycle
        ∙ ap (λ l. drop 1 l ++ e ∷ []) (holds.1 h)
        ∙ ap (λ l. l ++ e ∷ []) (drop-drop 1 (length log - slots t) log)
        ∙ sym (drop-append_le (length log - slots t + 1) log (e ∷ []) (omega (arith, slots_pos v)))
        ∙ ap (λ j. drop j (log ++ e ∷ [])) (omega (arith, same_slots, length-append log (e ∷ [])))
