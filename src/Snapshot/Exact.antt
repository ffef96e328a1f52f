-- ===== src/Snapshot/Exact.antt =====
-- What the snapshot since a time takes from one thread's buffer.
use funtrace.Prelude.{
  ℕ, ◌+◌, ◌-◌, ◌*◌, ◌≤◌, ◌<◌, ◌≡◌, sym, ap, ap₂, ◌∙◌, inl, inr, Bool, false, not, Option, none,
  some, List, [], ◌∷◌, ◌++◌, arith, leb, ◌==◌, if◌then◌else◌, length, drop, take, filter,
  filter-append, length-append, drop-append, take-append, subst, Bool-cases, All, filter-cong,
}
use funtrace.TraceBuffer.Layout.{
  TraceEntry, Memory, load, entry_size, entries_at, length-entries_at, entries_at-split,
}
use funtrace.TraceBuffer.Mask.{slots, index, IsAllocated, slots_pos}
use funtrace.TraceBuffer.Refine.{chronological}
use funtrace.TraceBuffer.{TraceData}
use funtrace.Snapshot.Select.{
  before, find_earliest_event_after, copy_from, length-copy_from, copy_from-find, InOrder,
  InOrder-Falls, in_window, not-before_future, filter-before,
}
use funtrace.Snapshot.{EventBuffer, earliest_right, copied, events_since}

-- The two parts of a buffer: from the position to the end, and up to the position.
abbrev pub older : Memory × TraceData → List TraceEntry
older (mem, t) = drop (index t) (entries_at mem t.buf (slots t))

abbrev pub newer : Memory × TraceData → List TraceEntry
newer (mem, t) = take (index t) (entries_at mem t.buf (slots t))

abbrev pub end_of : TraceData → ℕ
end_of t = t.buf + entry_size * slots t

-- The buffer's last entry was never written: the position has not gone round.
abbrev pub is_first_round : Memory × TraceData → Bool
is_first_round (mem, t) = (load mem (end_of t - entry_size)).cycle == 0

-- The entries that were written, from the oldest to the newest.
abbrev pub valid_entries : Memory × TraceData → List TraceEntry
valid_entries s = if is_first_round s then newer s else chronological s

-- The order that traced threads leave behind in the two parts of the buffer.
abbrev pub IsLogged : ℕ → Memory × TraceData → Type 0
IsLogged pause_time s =
    InOrder pause_time (newer s) × (is_first_round s ≡ false → InOrder pause_time (older s))

-- Not before the time asked for.
abbrev since : ℕ → ℕ → TraceEntry → Bool
since time pause_time e = not (before pause_time e (record { func = 0; cycle = time }))

module _ (mem : Memory) {t : TraceData} (v : IsAllocated t) where
  abbrev left : ℕ
  left = slots t - index t

  split :
      entries_at mem t.buf (slots t) ≡ entries_at mem t.buf (index t) ++ entries_at mem t.pos left
  split =
      ap (entries_at mem t.buf) sums
      ∙ entries_at-split mem t.buf (index t) left
      ∙ ap (λ x. entries_at mem t.buf (index t) ++ entries_at mem x left) (sym v.at_entry)
    where
      sums : slots t ≡ index t + left
      sums = omega (arith, v.in_buffer)

  newer-eq : newer (mem, t) ≡ entries_at mem t.buf (index t)
  newer-eq =
      ap (take (index t)) split
      ∙ take-append (index t) (entries_at mem t.buf (index t)) _
          (omega (arith, length-entries_at mem t.buf (index t)))

  older-eq : older (mem, t) ≡ entries_at mem t.pos left
  older-eq =
      ap (drop (index t)) split
      ∙ drop-append (index t) (entries_at mem t.buf (index t)) _
          (omega (arith, length-entries_at mem t.buf (index t)))

  module _ (time pause_time : ℕ) where
    find : ℕ → ℕ → Option ℕ
    find from to = find_earliest_event_after mem from to time pause_time

    copy-newer :
        InOrder pause_time (newer (mem, t))
        → copy_from mem (find t.buf t.pos) t.pos ≡ filter (since time pause_time) (newer (mem, t))
    unfolding find
    copy-newer h =
        ap (λ x. copy_from mem (find_earliest_event_after mem t.buf x time pause_time) x) v.at_entry
        ∙ copy_from-find mem t.buf (index t) time pause_time
            (InOrder-Falls pause_time _ _ (subst (InOrder pause_time) newer-eq h))
        ∙ ap (filter (since time pause_time)) (sym newer-eq)

    copy-older :
        InOrder pause_time (older (mem, t))
        → copy_from mem (find t.pos (end_of t)) (end_of t)
          ≡ filter (since time pause_time) (older (mem, t))
    unfolding find
    copy-older h =
        ap (λ x. copy_from mem (find_earliest_event_after mem t.pos x time pause_time) x) ends
        ∙ copy_from-find mem t.pos left time pause_time
            (InOrder-Falls pause_time _ _ (subst (InOrder pause_time) older-eq h))
        ∙ ap (filter (since time pause_time)) (sym older-eq)
      where
        ends : end_of t ≡ t.pos + entry_size * left
        ends = omega (arith, v.at_entry, v.in_buffer)

    copy-right :
        (is_first_round (mem, t) ≡ false → InOrder pause_time (older (mem, t)))
        → copy_from mem (earliest_right mem time pause_time t) (end_of t)
          ≡ filter (since time pause_time) (if is_first_round (mem, t) then [] else older (mem, t))
    unfolding earliest_right find copy_from
    copy-right h = elim (Bool-cases (is_first_round (mem, t))) [
      | inl e ↦ rw e
      | inr e ↦ rw e (copy-older (h e))
    ]

    copied-filter :
        (getname : ℕ → List ℕ)
        → IsLogged pause_time (mem, t)
        → (copied mem getname (earliest_right mem time pause_time t) (find t.buf t.pos) t).buf
          ≡ filter (since time pause_time) (valid_entries (mem, t))
    unfolding copied
    copied-filter getname h =
        ap₂ ◌++◌ (copy-right h.1) (copy-newer h.0)
        ∙ sym (filter-append (since time pause_time) _ (newer (mem, t)))
        ∙ ap (filter (since time pause_time)) joined
      where
        joined :
            (if is_first_round (mem, t) then [] else older (mem, t)) ++ newer (mem, t)
            ≡ valid_entries (mem, t)
        joined = elim (Bool-cases (is_first_round (mem, t))) [ inl e ↦ rw e | inr e ↦ rw e ]

    bytes-copied :
        (getname : ℕ → List ℕ) (right from : Option ℕ)
        → (copied mem getname right from t).bytes
          ≡ entry_size * length (copied mem getname right from t).buf
    unfolding copied
    bytes-copied getname right from = omega (
      arith,
      length-append (copy_from mem right (end_of t)) (copy_from mem from t.pos),
      length-copy_from mem right (end_of t),
      length-copy_from mem from t.pos,
    )

    -- What the snapshot takes of a trace, by its comparison.
    pub events_since-filter :
        (getname : ℕ → List ℕ)
        → IsLogged pause_time (mem, t)
        → (b : EventBuffer) × (events_since mem getname time pause_time t ≡ some b)
          × (b.buf ≡ filter (since time pause_time) (valid_entries (mem, t)))
          × (b.bytes ≡ entry_size * length b.buf)
    unfolding events_since find
    events_since-filter getname h = (
      copied mem getname (earliest_right mem time pause_time t)
          (find_earliest_event_after mem t.buf t.pos time pause_time) t,
      ground (arith, slots_pos v),
      copied-filter getname h,
      bytes-copied getname _ _,
    )

-- For a well-formed buffer whose two parts are in the order that a traced thread leaves behind, and
-- a time not after the pause, the snapshot of the trace exists. It holds exactly the written
-- entries recorded from that time on and up to the pause, from the oldest to the newest, and its
-- number of bytes is that of those entries.
pub events_since_exact :
    (mem : Memory) (getname : ℕ → List ℕ) (time pause_time : ℕ) {t : TraceData}
    → IsAllocated t
    → IsLogged pause_time (mem, t)
    → time ≤ pause_time
    → (b : EventBuffer) × (events_since mem getname time pause_time t ≡ some b)
      × (b.buf ≡ filter (in_window time pause_time) (valid_entries (mem, t)))
      × (b.bytes ≡ entry_size * length b.buf)
events_since_exact mem getname time pause_time v h le =
    let (b, e, es, n) = events_since-filter mem v time pause_time getname h in
    (b, e, es ∙ filter-before pause_time (record { func = 0; cycle = time }) _ le, n)

-- A time after the pause, and after all entries, selects nothing by time: for a well-formed buffer
-- in the order that a traced thread leaves behind, the snapshot holds all the written entries
-- recorded up to the pause.
pub events_since_future :
    (mem : Memory) (getname : ℕ → List ℕ) (time pause_time : ℕ) {t : TraceData}
    → IsAllocated t
    → IsLogged pause_time (mem, t)
    → pause_time < time
    → All (λ e. e.cycle < time) (valid_entries (mem, t))
    → (b : EventBuffer) × (events_since mem getname time pause_time t ≡ some b)
      × (b.buf ≡ filter (λ e. leb e.cycle pause_time) (valid_entries (mem, t)))
events_since_future mem getname time pause_time {t} v h lt all =
    let (b, e, es, n) = events_since-filter mem v time pause_time getname h in
    (
      b,
      e,
      es
          ∙ filter-cong (since time pause_time) (λ e. leb e.cycle pause_time)
              (valid_entries (mem, t)) (agree (valid_entries (mem, t)) all),
    )
  where
    agree :
        (xs : List TraceEntry)
        → All (λ e. e.cycle < time) xs
        → All (λ e. since time pause_time e ≡ leb e.cycle pause_time) xs
    agree [] a = tt
    agree (x ∷ xs) a =
        (not-before_future pause_time (record { func = 0; cycle = time }) x lt a.0, agree xs a.1)

-- A trace with no buffer has no snapshot since a time: reading its last entry is out of bounds.
pub events_since_no_buffer :
    (mem : Memory) (getname : ℕ → List ℕ) (time pause_time : ℕ) (t : TraceData)
    → t.buf_size ≡ 0
    → events_since mem getname time pause_time t ≡ none
unfolding events_since
events_since_no_buffer mem getname time pause_time t h = ground arith
