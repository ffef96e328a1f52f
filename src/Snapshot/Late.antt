-- ===== src/Snapshot/Late.antt =====
-- A buffer that late calls were written to after its position was read, of a thread that was traced
-- from its registration on: what a search of the memory sees of it.
use funtrace.Prelude.{
  ℕ, ◌+◌, ◌-◌, ◌/◌, ◌≤◌, ◌<◌, ◌≡◌, ap, ap₂, sym, ◌∙◌, subst, true, false, List, [], ◌∷◌, ◌++◌, map,
  arith, leb, filter, All, drop, get_or, length, All-append, append-nil, append_assoc,
  length-append, length-drop, dec_lt, drop-drop, drop-append_more, get_or-drop, get_or-append,
  All-rotated, drop-append_le, append_cancel,
}
use funtrace.Search.{All-get_or}
use funtrace.TraceBuffer.Layout.{
  TraceEntry, Memory, load, entry_size, entries_at, length-entries_at, get_or-entries_at,
}
use funtrace.TraceBuffer.Mask.{slots, index, IsAllocated, slots_pos}
use funtrace.TraceBuffer.Refine.{IsEnabled, SameOutside, chronological}
use funtrace.TraceBuffer.Run.{
  Event, recorded, trace_all, trace_all-IsAllocated, trace_all-SameOutside, chronological-trace_all,
}
use funtrace.TraceBuffer.Window.{rotate}
use funtrace.TraceBuffer.Late.{seen_from, seen_from-trace_all, index-trace_all, length-map-recorded}
use funtrace.TraceBuffer.{TraceData}
use funtrace.Snapshot.Select.{InOrder, in_window}
use funtrace.Snapshot.Order.{
  IsOrdered, IsEarly, IsLate, All-drop, IsOrdered-drop, InOrder-late, InOrder-append_parts,
  filter-late_early,
}
use funtrace.Snapshot.Exact.{older, newer, end_of, is_first_round, valid_entries, IsLogged}

module _ (mem : Memory) {t : TraceData} (v : IsAllocated t) (on : IsEnabled t) (first : index t ≡ 0)
    (clear : (load mem (end_of t - entry_size)).cycle ≡ 0) (pause_time : ℕ) (es ls : List Event)
    (order : IsOrdered (map recorded es)) (early : All (IsEarly pause_time) (map recorded es))
    (late_order : IsOrdered (map recorded ls)) (late : All (IsLate pause_time) (map recorded ls))
    (lap : length ls ≤ slots t) where
  -- The state when the position is read, and the memory that is searched.
  abbrev pub at_pause : Memory × TraceData
  at_pause = trace_all es (mem, t)

  abbrev pub searched : Memory
  searched = (trace_all ls at_pause).0

  abbrev pub n : ℕ
  n = slots t

  abbrev pub lost : ℕ
  lost = length es + length ls - n

  well : IsAllocated at_pause.1 × IsEnabled at_pause.1
  well = trace_all-IsAllocated es mem v on

  same : SameOutside (mem, t) at_pause
  same = trace_all-SameOutside es mem v on

  -- The entries before any call.
  abbrev before : List TraceEntry
  before = entries_at mem t.buf n

  seen :
      seen_from at_pause.1 searched
      ≡ map recorded ls ++ drop (length es + length ls) (before ++ map recorded es)
  seen =
      seen_from-trace_all ls at_pause.0 well.0 well.1
        (omega (arith, ap (λ k. k / entry_size) same.1))
      ∙ ap (λ c. map recorded ls ++ drop (length ls) c)
          (chronological-trace_all es mem v on
            ∙ ap (λ c. drop (length es) (c ++ map recorded es)) start)
      ∙ ap (λ c. map recorded ls ++ c)
          (drop-drop (length ls) (length es) (before ++ map recorded es))
    where
      start : chronological (mem, t) ≡ before
      start = ap (λ i. rotate i before) first ∙ append-nil before

  abbrev zero_entry : TraceEntry
  zero_entry = record { func = 0; cycle = 0 }

  -- The buffer as the search sees it.
  abbrev pub entries : List TraceEntry
  entries = entries_at searched at_pause.1.buf (slots at_pause.1)

  abbrev pub sight : Memory × TraceData
  sight = (searched, at_pause.1)

  slots_same : slots at_pause.1 ≡ n
  slots_same = ap (λ k. k / entry_size) same.1

  length-entries : length entries ≡ n
  length-entries = length-entries_at searched at_pause.1.buf (slots at_pause.1) ∙ slots_same

  last_seen : get_or entries (n - 1) zero_entry ≡ load searched (end_of at_pause.1 - entry_size)
  last_seen =
      get_or-entries_at searched at_pause.1.buf (slots at_pause.1) (n - 1) zero_entry
        (omega (arith, slots_pos v, slots_same))
      ∙ ap searched (omega (arith, slots_pos v, slots_same))

  last_before : get_or before (n - 1) zero_entry ≡ load mem (end_of t - entry_size)
  last_before =
      get_or-entries_at mem t.buf n (n - 1) zero_entry (omega (arith, slots_pos v))
      ∙ ap mem (omega (arith, slots_pos v))

  -- What the search can rely on, and what it finds.
  abbrev pub Sound : Type 0
  Sound =
      IsLogged pause_time sight
      × ((time : ℕ)
          → filter (in_window time pause_time) (valid_entries sight)
            ≡ filter (λ e. leb time e.cycle) (drop lost (map recorded es)))

  -- The buffer went round: all its entries are from calls.
  module _ (round : n ≤ length es + length ls) where
    abbrev kept : List TraceEntry
    kept = drop lost (map recorded es)

    seen_round : older sight ++ newer sight ≡ map recorded ls ++ kept
    seen_round =
        seen
        ∙ ap (λ d. map recorded ls ++ d)
            (drop-append_more (length es + length ls) before (map recorded es)
                (omega (arith, length-entries_at mem t.buf n))
              ∙ ap (λ k. drop k (map recorded es)) (omega (arith, length-entries_at mem t.buf n)))

    not_first : is_first_round sight ≡ false
    not_first = ground (arith, last_seen, recorded_last)
      where
        written : (fs : List TraceEntry) → All (IsEarly pause_time) fs → All (λ e. 1 ≤ e.cycle) fs
        written [] h = tt
        written (f ∷ fs) h = (h.0.0, written fs h.1)

        written_late :
            (fs : List TraceEntry) → All (IsLate pause_time) fs → All (λ e. 1 ≤ e.cycle) fs
        written_late [] h = tt
        written_late (f ∷ fs) h = (omega arith, written_late fs h.1)

        all : All (λ e. 1 ≤ e.cycle) entries
        all =
            All-rotated (λ e. 1 ≤ e.cycle) (index at_pause.1) entries
              (subst (All (λ e. 1 ≤ e.cycle)) (sym seen_round) (
                All-append (λ e. 1 ≤ e.cycle) (map recorded ls) kept
                  (written_late (map recorded ls) late)
                  (All-drop (λ e. 1 ≤ e.cycle) lost (map recorded es)
                    (written (map recorded es) early))))

        recorded_last : 1 ≤ (get_or entries (n - 1) zero_entry).cycle
        recorded_last =
            All-get_or (λ e. 1 ≤ e.cycle) zero_entry entries (n - 1) all
              (omega (arith, length-entries, slots_pos v))

    round-Sound : Sound
    round-Sound =
        let parts = InOrder-append_parts pause_time (older sight) (newer sight) (
          subst (InOrder pause_time) (sym seen_round) (
            InOrder-late pause_time (map recorded ls) kept late_order late
              (IsOrdered-drop lost (map recorded es) order)
              (All-drop (IsEarly pause_time) lost (map recorded es) early))) in
        (
          (parts.1, λ e. parts.0),
          λ time. rw not_first (
              ap (filter (in_window time pause_time)) seen_round
              ∙ filter-late_early pause_time time (map recorded ls) kept late
                  (All-drop (IsEarly pause_time) lost (map recorded es) early)),
        )

  -- The position has not gone round: the buffer's end is as it was before the first call.
  module _ (short : length es + length ls < n) where
    abbrev rest : List TraceEntry
    rest = drop (length es + length ls) before

    index_short : index at_pause.1 ≡ length es
    index_short = omega (arith, index-trace_all es mem v on (omega arith))

    seen_short : (older sight ≡ map recorded ls ++ rest) × (newer sight ≡ map recorded es)
    seen_short =
        append_cancel (older sight) (map recorded ls ++ rest)
          (omega (
            arith,
            length-drop (index at_pause.1) entries,
            length-entries,
            index_short,
            length-append (map recorded ls) rest,
            length-map-recorded ls,
            length-drop (length es + length ls) before,
            length-entries_at mem t.buf n,
          ))
          (seen
            ∙ ap (λ d. map recorded ls ++ d)
                (drop-append_le (length es + length ls) before (map recorded es)
                  (omega (arith, length-entries_at mem t.buf n)))
            ∙ sym (append_assoc (map recorded ls) rest (map recorded es)))

    last_same : get_or entries (n - 1) zero_entry ≡ get_or before (n - 1) zero_entry
    last_same =
        ap (λ k. get_or entries k zero_entry) (omega (arith, index_short))
        ∙ sym (get_or-drop (index at_pause.1) (n - 1 - length es) zero_entry entries)
        ∙ ap₂ (λ l k. get_or l k zero_entry) seen_short.0 places
        ∙ get_or-append (map recorded ls) rest gap zero_entry
        ∙ get_or-drop (length es + length ls) gap zero_entry before
        ∙ ap (λ k. get_or before k zero_entry) (omega arith)
      where
        gap : ℕ
        gap = n - 1 - (length es + length ls)

        places : n - 1 - length es ≡ length (map recorded ls) + gap
        places = omega (arith, length-map-recorded ls)

    is_first : is_first_round sight ≡ true
    is_first = ground (arith, last_seen, last_same, last_before, clear)

    short-Sound : Sound
    short-Sound = (
      (
        subst (InOrder pause_time) (sym seen_short.1)
            (InOrder-late pause_time [] (map recorded es) tt tt order early),
        λ e. absurd (cc (e, is_first)),
      ),
      λ time. rw is_first (
          ap (filter (in_window time pause_time)) seen_short.1
          ∙ filter-late_early pause_time time [] (map recorded es) tt early
          ∙ ap (λ k. filter (λ e. leb time e.cycle) (drop k (map recorded es))) {x = 0} {y = lost}
              (omega arith)),
    )

  pub sound : Sound
  sound = elim (dec_lt (length es + length ls) n) [
    | yes h ↦ short-Sound h
    | no h ↦ round-Sound (omega arith)
  ]
