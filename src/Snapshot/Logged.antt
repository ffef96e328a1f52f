-- ===== src/Snapshot/Logged.antt =====
-- What a snapshot finds in a buffer that holds the newest entries of its thread's log.
use funtrace.Prelude.{
  ℕ, ◌-◌, ◌≤◌, ◌<◌, ◌≡◌, ap, sym, ◌∙◌, subst, true, false, List, [], ◌∷◌, arith, length, drop, take,
  filter, All, leb, dec_lt, All-rotated,
}
use funtrace.Search.{All-get_or}
use funtrace.TraceBuffer.Layout.{
  TraceEntry, Memory, load, entries_at, length-entries_at, get_or-entries_at,
}
use funtrace.TraceBuffer.Mask.{slots, index, IsAllocated, slots_pos}
use funtrace.TraceBuffer.Log.{Holds, last_entry}
use funtrace.TraceBuffer.{TraceData}
use funtrace.Snapshot.Select.{InOrder, in_window}
use funtrace.Snapshot.Order.{
  IsOrdered, IsEarly, All-drop, IsOrdered-drop, InOrder-late, InOrder-append_parts,
  filter-late_early,
}
use funtrace.Snapshot.Exact.{is_first_round, valid_entries, IsLogged}

-- The entries of the log that a buffer still holds.
abbrev pub kept : TraceData → List TraceEntry → List TraceEntry
kept t log = drop (length log - slots t) log

module _ (mem : Memory) {t : TraceData} (v : IsAllocated t) (pause_time : ℕ) (log : List TraceEntry)
    (holds : Holds (mem, t) log) (order : IsOrdered log)
    (early : All (IsEarly pause_time) log) where
  abbrev Found : Type 0
  Found = IsLogged pause_time (mem, t) × (valid_entries (mem, t) ≡ kept t log)

  short-Found : length log < slots t → Found
  short-Found h = (
    (
      subst (InOrder pause_time) (sym front.1) (InOrder-late pause_time [] log tt tt order early),
      λ e. absurd (cc (e, first)),
    ),
    rw first (front.1 ∙ ap (λ k. drop k log) {x = 0} (omega arith)),
  )
    where
      front :
          (index t ≡ length log)
          × (take (index t) (entries_at mem t.buf (slots t)) ≡ log)
          × ((load mem (last_entry t)).cycle ≡ 0)
      front = holds.0 h

      first : is_first_round (mem, t) ≡ true
      first = ground (arith, front.2)

  round-Found : slots t ≤ length log → Found
  round-Found h =
      let parts =
        InOrder-append_parts pause_time (drop (index t) entries) (take (index t) entries) (
          subst (InOrder pause_time) (sym (holds.1 h)) (
            InOrder-late pause_time [] (kept t log) tt tt
              (IsOrdered-drop (length log - slots t) log order)
              (All-drop (IsEarly pause_time) (length log - slots t) log early))) in
      ((parts.1, λ e. parts.0), rw not_first (holds.1 h))
    where
      entries : List TraceEntry
      entries = entries_at mem t.buf (slots t)

      written : (es : List TraceEntry) → All (IsEarly pause_time) es → All (λ e. 1 ≤ e.cycle) es
      written [] k = tt
      written (e ∷ es) k = (k.0.0, written es k.1)

      all : All (λ e. 1 ≤ e.cycle) entries
      all =
          All-rotated (λ e. 1 ≤ e.cycle) (index t) entries
            (subst (All (λ e. 1 ≤ e.cycle)) (sym (holds.1 h))
              (All-drop (λ e. 1 ≤ e.cycle) (length log - slots t) log (written log early)))

      last : 1 ≤ (load mem (last_entry t)).cycle
      last =
          subst (λ e. 1 ≤ e.cycle)
            (get_or-entries_at mem t.buf (slots t) (slots t - 1) (record { func = 0; cycle = 0 })
                (omega (arith, slots_pos v))
              ∙ ap mem (omega (arith, slots_pos v)))
            (All-get_or (λ e. 1 ≤ e.cycle) (record { func = 0; cycle = 0 }) entries (slots t - 1)
              all (omega (arith, slots_pos v, length-entries_at mem t.buf (slots t))))

      not_first : is_first_round (mem, t) ≡ false
      not_first = ground (arith, last)

  pub Holds-IsLogged : Found
  Holds-IsLogged = elim (dec_lt (length log) (slots t)) [
    | yes h ↦ short-Found h
    | no h ↦ round-Found (omega arith)
  ]

  -- Of what is found, the window selects by the time asked for.
  pub filter-kept :
      (time : ℕ)
      → filter (in_window time pause_time) (kept t log)
        ≡ filter (λ e. leb time e.cycle) (kept t log)
  filter-kept time =
      filter-late_early pause_time time [] (kept t log) tt
        (All-drop (IsEarly pause_time) (length log - slots t) log early)
