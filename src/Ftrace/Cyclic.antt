-- ===== src/Ftrace/Cyclic.antt =====
-- The cyclic buffer of ftrace events: the events read last, and what a snapshot takes of them.
use funtrace.Prelude.{
  ℕ, suc, ◌+◌, ◌%◌, ◌≤◌, ◌<◌, ◌≡◌, refl, ap, ap₂, sym, ◌∙◌, inl, inr, Bool, true, false, not, none,
  some, List, [], ◌∷◌, ◌++◌, map, arith, ltb, ◌==◌, if◌then◌else◌, length, get_or, set, take, drop,
  filter, filter-append, length-set, length-append, length-take, length-drop, drop_all, Bool-cases,
  All, append-nil,
}
use native.Mathlib.Nat.{mod_self, mod-lt, mod-eq_of_lt}
use funtrace.Search.{lower_bound, Falls, drop-lower_bound}
use funtrace.TraceBuffer.Window.{rotate, rotate-set, rotate_end, drop-suc_append}
use funtrace.Ftrace.{
  FtraceEvent, FtraceHandler, new_event, parse_timestamp, on_line, cmp_events,
  find_earliest_ftrace_event_after, copy_lines, events_snapshot,
}

-- The events in the buffer, from the oldest to the newest; those never written are in front.
abbrev pub logged : FtraceHandler → List FtraceEvent
logged h = rotate h.pos h.events

-- The lines of a pipe that have a time stamp, as events.
abbrev pub parsed : List (List ℕ) → List FtraceEvent
parsed [] = []
parsed (l ∷ ls) =
    if parse_timestamp l == 0
    then parsed ls
    else record { timestamp = parse_timestamp l; line = l } ∷ parsed ls

-- The lines of the pipe, in order.
abbrev pub on_lines : List (List ℕ) → FtraceHandler → FtraceHandler
on_lines [] h = h
on_lines (l ∷ ls) h = on_lines ls (on_line l h)

-- Each event's time stamp is at most those of the events behind it.
abbrev pub IsChronological : List FtraceEvent → Type 0
IsChronological [] = Unit
IsChronological (e ∷ es) = All (λ f. e.timestamp ≤ f.timestamp) es × IsChronological es

wrapped :
    (n i : ℕ) (xs : List FtraceEvent)
    → length xs ≡ n
    → i < n
    → rotate ((i + 1) % n) xs ≡ rotate (suc i) xs
wrapped n i xs h k = elim (Bool-cases (i + 1 == n)) [
  | inl e ↦
      ap (λ j. rotate j xs) (to_zero (ground arith)) ∙ sym (rotate_end xs (suc i) (ground arith))
  | inr e ↦ ap (λ j. rotate j xs) (stays (ground arith))
]
  where
    to_zero : i + 1 ≡ n → (i + 1) % n ≡ 0
    to_zero e = ap (λ m. m % n) e ∙ mod_self n

    stays : i + 1 < n → (i + 1) % n ≡ suc i
    stays e = mod-eq_of_lt e ∙ omega arith

on_line-logged :
    (l : List ℕ) (h : FtraceHandler)
    → h.pos < length h.events
    → parse_timestamp l == 0 ≡ false
    → logged (on_line l h)
      ≡ drop 1 (logged h) ++ record { timestamp = parse_timestamp l; line = l } ∷ []
unfolding on_line
on_line-logged l h k p = rw p (
    wrapped (length h.events) h.pos (set h.events h.pos event) (length-set h.events h.pos event) k
    ∙ rotate-set h.events h.pos event k)
  where
    event : FtraceEvent
    event = record { timestamp = parse_timestamp l; line = l }

on_line-skipped : (l : List ℕ) (h : FtraceHandler) → parse_timestamp l == 0 ≡ true → on_line l h ≡ h
unfolding on_line
on_line-skipped l h e = rw e refl

on_line-bounded :
    (l : List ℕ) (h : FtraceHandler)
    → h.pos < length h.events
    → ((on_line l h).pos < length (on_line l h).events)
      × (length (on_line l h).events ≡ length h.events)
unfolding on_line
on_line-bounded l h k = elim (Bool-cases (parse_timestamp l == 0)) [
  | inl e ↦ rw e (k, refl)
  | inr e ↦ rw e (
    omega (
      arith,
      length-set h.events h.pos event,
      mod-lt (h.pos + 1) {m = length h.events} (omega arith),
    ),
    length-set h.events h.pos event,
  )
]
  where
    event : FtraceEvent
    event = record { timestamp = parse_timestamp l; line = l }

length-logged : (h : FtraceHandler) → length (logged h) ≡ length h.events
length-logged h = omega (
  arith,
  length-append (drop h.pos h.events) (take h.pos h.events),
  length-drop h.pos h.events,
  length-take h.pos h.events,
)

pub on_lines-logged :
    (ls : List (List ℕ)) (h : FtraceHandler)
    → h.pos < length h.events
    → logged (on_lines ls h) ≡ drop (length (parsed ls)) (logged h ++ parsed ls)
on_lines-logged [] h k = sym (append-nil (logged h))
on_lines-logged (l ∷ ls) h k = elim (Bool-cases (parse_timestamp l == 0)) [
  | inl e ↦ rw e (ap (λ x. logged (on_lines ls x)) (on_line-skipped l h e) ∙ on_lines-logged ls h k)
  | inr e ↦ rw e (
      on_lines-logged ls (on_line l h) (on_line-bounded l h k).0
      ∙ ap (λ es. drop (length (parsed ls)) (es ++ parsed ls)) (on_line-logged l h k e)
      ∙ drop-suc_append (length (parsed ls)) (logged h) (parsed ls) _
          (omega (arith, length-logged h)))
]

-- An event is not before a time.
abbrev pub is_since : ℕ → FtraceEvent → Bool
is_since earliest e = not (ltb e.timestamp earliest)

IsChronological-Falls :
    (earliest : ℕ) (es : List FtraceEvent)
    → IsChronological es
    → Falls (λ e. cmp_events e (record { timestamp = earliest; line = [] })) es
IsChronological-Falls earliest [] h = tt
IsChronological-Falls earliest (e ∷ es) h = (heads es h.0, IsChronological-Falls earliest es h.1)
  where
    heads :
        (fs : List FtraceEvent)
        → All (λ f. e.timestamp ≤ f.timestamp) fs
        → All (λ f. ltb f.timestamp earliest ≡ true → ltb e.timestamp earliest ≡ true) fs
    heads [] h = tt
    heads (f ∷ fs) h = (ground (arith, h.0), heads fs h.1)

-- The lines copied from a range in order are those of its events from the time on.
copy_lines-find :
    (earliest : ℕ) (es : List FtraceEvent)
    → IsChronological es
    → copy_lines (find_earliest_ftrace_event_after es earliest) es
      ≡ map (λ e. e.line) (filter (is_since earliest) es)
unfolding copy_lines find_earliest_ftrace_event_after
copy_lines-find earliest es h = copied (lower_bound _ (length es)) ∙ ap (map (λ e. e.line)) found.1
  where
    evt : FtraceEvent
    evt = record { timestamp = earliest; line = [] }

    found :
        (lower_bound (λ i. cmp_events (get_or es i new_event) evt) (length es) ≤ length es)
        × (drop (lower_bound (λ i. cmp_events (get_or es i new_event) evt) (length es)) es
            ≡ filter (is_since earliest) es)
    found =
        drop-lower_bound (λ e. cmp_events e evt) new_event
          (λ i. cmp_events (get_or es i new_event) evt) es (λ i k. refl)
          (IsChronological-Falls earliest es h)

    copied :
        (p : ℕ)
        → copy_lines (if p == length es then none else some p) es ≡ map (λ e. e.line) (drop p es)
    copied p = elim (Bool-cases (p == length es)) [
      | inl e ↦ rw e (ap (map (λ e. e.line)) (sym (drop_all p es (ground arith))))
      | inr e ↦ rw e refl
    ]

All-append_parts :
    (P : FtraceEvent → Type 0) (es fs : List FtraceEvent) → All P (es ++ fs) → All P es × All P fs
All-append_parts P [] fs h = (tt, h)
All-append_parts P (e ∷ es) fs h =
    let parts = All-append_parts P es fs h.1 in ((h.0, parts.0), parts.1)

IsChronological-append_parts :
    (es fs : List FtraceEvent)
    → IsChronological (es ++ fs)
    → IsChronological es × IsChronological fs
IsChronological-append_parts [] fs h = (tt, h)
IsChronological-append_parts (e ∷ es) fs h =
    let parts = IsChronological-append_parts es fs h.1 in
    let heads = All-append_parts (λ f. e.timestamp ≤ f.timestamp) es fs h.0 in
    ((heads.0, parts.0), parts.1)

map-append_lines :
    (es fs : List FtraceEvent)
    → map (λ e. e.line) (es ++ fs) ≡ map (λ e. e.line) es ++ map (λ e. e.line) fs
map-append_lines [] fs = refl
map-append_lines (e ∷ es) fs = ap (λ l. e.line ∷ l) (map-append_lines es fs)

pub events_snapshot-logged :
    (earliest : ℕ) (h : FtraceHandler)
    → IsChronological (logged h)
    → events_snapshot earliest h ≡ map (λ e. e.line) (filter (is_since earliest) (logged h))
unfolding events_snapshot
events_snapshot-logged earliest h c =
    let parts = IsChronological-append_parts (drop h.pos h.events) (take h.pos h.events) c in
    ap₂ ◌++◌ (copy_lines-find earliest (drop h.pos h.events) parts.0)
      (copy_lines-find earliest (take h.pos h.events) parts.1)
    ∙ sym (map-append_lines (filter (is_since earliest) (drop h.pos h.events)) _)
    ∙ ap (map (λ e. e.line))
        (sym (filter-append (is_since earliest) (drop h.pos h.events) (take h.pos h.events)))
