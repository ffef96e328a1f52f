-- ===== src/Snapshot/Select.antt =====
-- `find_earliest_event_after` over trace entries, and the copies that
-- `funtrace_pause_and_get_snapshot_starting_at_time` makes of one thread's buffer.
use funtrace.Prelude.{
  ℕ, zero, suc, ◌+◌, ◌-◌, ◌*◌, ◌/◌, ◌≤◌, ◌<◌, ◌≡◌, refl, sym, ap, ap₂, ◌∙◌, Bool, true, false, not,
  ◌&&◌, Option, none, some, List, [], ◌∷◌, arith, ltb, leb, ◌==◌, if◌then◌else◌, length, drop,
  filter, All, drop_all, Bool-cases, inl, inr, ◌⊎◌, subst, fun_ext,
}
use funtrace.Search.{lower_bound, drop-lower_bound, Falls}
use funtrace.TraceBuffer.Layout.{
  TraceEntry, Memory, load, entry_size, entries_at, length-entries_at, get_or-entries_at,
}

-- The comparison: events after the pause stand before the rest.
unfoldable pub before : ℕ → TraceEntry → TraceEntry → Bool
before pause_time e1 e2 =
    if ltb pause_time e1.cycle && leb e2.cycle pause_time
    then true
    else if ltb pause_time e2.cycle && leb e1.cycle pause_time
    then false
    else ltb e1.cycle e2.cycle

-- `none` is `nullptr`. The field `func` of the value searched for is never read.
unfoldable pub find_earliest_event_after : Memory → ℕ → ℕ → ℕ → ℕ → Option ℕ
find_earliest_event_after mem begin end time_threshold pause_time =
    let e : TraceEntry = record { func = 0; cycle = time_threshold } in
    let less = λ (i : ℕ). before pause_time (load mem (begin + entry_size * i)) e in
    let p = begin + entry_size * lower_bound less ((end - begin) / entry_size) in
    if p == end then none else some p

-- The number of entries from the place found to the end; `std::copy` of them.
unfoldable pub count_from : Option ℕ → ℕ → ℕ
count_from none to = 0
count_from (some from) to = (to - from) / entry_size

unfoldable pub copy_from : Memory → Option ℕ → ℕ → List TraceEntry
copy_from mem none to = []
copy_from mem (some from) to = entries_at mem from ((to - from) / entry_size)

pub length-copy_from :
    (mem : Memory) (from : Option ℕ) (to : ℕ) → length (copy_from mem from to) ≡ count_from from to
unfolding copy_from count_from
length-copy_from mem none to = refl
length-copy_from mem (some from) to = length-entries_at mem from ((to - from) / entry_size)

drop-entries_at :
    (mem : Memory) (a n r : ℕ)
    → r ≤ n
    → drop r (entries_at mem a n) ≡ entries_at mem (a + entry_size * r) (n - r)
unfolding entries_at
drop-entries_at mem a n zero h = ap₂ (entries_at mem) (omega arith) (omega arith)
drop-entries_at mem a zero (suc r) h = absurd (omega arith)
drop-entries_at mem a (suc n) (suc r) h =
    drop-entries_at mem (a + entry_size) n r (omega arith)
    ∙ ap₂ (entries_at mem) (omega arith) (omega arith)

module _ (mem : Memory) (begin n time_threshold pause_time : ℕ) where
  abbrev threshold : TraceEntry
  threshold = record { func = 0; cycle = time_threshold }

  abbrev end : ℕ
  end = begin + entry_size * n

  abbrev selected : Option ℕ
  selected = find_earliest_event_after mem begin end time_threshold pause_time

  abbrev place : ℕ
  place = lower_bound (λ i. before pause_time (load mem (begin + entry_size * i)) threshold) n

  copy_from-at :
      (r : ℕ)
      → r ≤ n
      → copy_from mem
          (if begin + entry_size * r == end then none else some (begin + entry_size * r))
          end
        ≡ drop r (entries_at mem begin n)
  unfolding copy_from
  copy_from-at r h = elim (Bool-cases (begin + entry_size * r == end)) [
    | inl e ↦ rw e (
        sym (
          drop_all r (entries_at mem begin n)
            (omega (arith, length-entries_at mem begin n, at_end e))))
    | inr e ↦
        rw e (
          ap (entries_at mem (begin + entry_size * r)) left ∙ sym (drop-entries_at mem begin n r h))
  ]
    where
      at_end : (begin + entry_size * r == end) ≡ true → r ≡ n
      at_end e = ground arith

      left : (end - (begin + entry_size * r)) / entry_size ≡ n - r
      left = omega arith

  copy_from-place : place ≤ n → copy_from mem selected end ≡ drop place (entries_at mem begin n)
  unfolding find_earliest_event_after
  copy_from-place h = rw (ap (lower_bound _) count) (copy_from-at place h)
    where
      count : (end - begin) / entry_size ≡ n
      count = omega arith

  -- The entries copied from a range that the comparison parts are those that are not before the
  -- threshold, in order.
  pub copy_from-find :
      Falls (λ e. before pause_time e threshold) (entries_at mem begin n)
      → copy_from mem selected end
        ≡ filter (λ e. not (before pause_time e threshold)) (entries_at mem begin n)
  copy_from-find falls = copy_from-place found.0 ∙ found.1
    where
      xs : List TraceEntry
      xs = entries_at mem begin n

      found : (place ≤ n) × (drop place xs ≡ filter (λ e. not (before pause_time e threshold)) xs)
      found =
          subst
            (λ k.
              (lower_bound (λ i. before pause_time (load mem (begin + entry_size * i)) threshold) k
                ≤ k)
              × (drop
                    (lower_bound
                      (λ i. before pause_time (load mem (begin + entry_size * i)) threshold) k)
                    xs
                  ≡ filter (λ e. not (before pause_time e threshold)) xs))
            (length-entries_at mem begin n)
            (drop-lower_bound (λ e. before pause_time e threshold) threshold _ xs
              (λ i h.
                ap (λ e. before pause_time e threshold)
                  (sym (
                    get_or-entries_at mem begin n i threshold
                      (omega (arith, h, length-entries_at mem begin n)))))
              falls)

-- `x` may stand before `y` in a range: events after the pause come first, and on either side of
-- the pause the older come first.
abbrev pub Precedes : ℕ → TraceEntry → TraceEntry → Type 0
Precedes pause_time x y =
    ((y.cycle ≤ pause_time) × ((pause_time < x.cycle) ⊎ (x.cycle ≤ y.cycle)))
    ⊎ ((pause_time < x.cycle) × (x.cycle ≤ y.cycle))

-- The order in which a traced thread leaves a range of its buffer: in the order of time, but its
-- start may hold events recorded after the pause.
abbrev pub InOrder : ℕ → List TraceEntry → Type 0
InOrder pause_time [] = Unit
InOrder pause_time (x ∷ xs) = All (Precedes pause_time x) xs × InOrder pause_time xs

-- The events of the time asked for that were recorded before the pause.
abbrev pub in_window : ℕ → ℕ → TraceEntry → Bool
in_window time pause_time e = leb time e.cycle && leb e.cycle pause_time

module _ (pause_time : ℕ) (v : TraceEntry) where
  All-Precedes :
      (x : TraceEntry) (xs : List TraceEntry)
      → All (Precedes pause_time x) xs
      → All (λ y. before pause_time y v ≡ true → before pause_time x v ≡ true) xs
  unfolding before
  All-Precedes x [] h = tt
  All-Precedes x (y ∷ ys) h = (ground (arith, h.0), All-Precedes x ys h.1)

  pub InOrder-Falls :
      (xs : List TraceEntry) → InOrder pause_time xs → Falls (λ e. before pause_time e v) xs
  InOrder-Falls [] h = tt
  InOrder-Falls (x ∷ xs) h = (All-Precedes x xs h.0, InOrder-Falls xs h.1)

  pub not-before :
      (e : TraceEntry)
      → v.cycle ≤ pause_time
      → not (before pause_time e v) ≡ in_window v.cycle pause_time e
  unfolding before
  not-before e h = ground arith

  pub not-before_future :
      (e : TraceEntry)
      → pause_time < v.cycle
      → e.cycle < v.cycle
      → not (before pause_time e v) ≡ leb e.cycle pause_time
  unfolding before
  not-before_future e h k = ground arith

  pub filter-before :
      (xs : List TraceEntry)
      → v.cycle ≤ pause_time
      → filter (λ e. not (before pause_time e v)) xs ≡ filter (in_window v.cycle pause_time) xs
  filter-before xs h = ap (λ q. filter q xs) (fun_ext (λ e. not-before e h))
