-- ===== src/Ftrace/Pipe.antt =====
-- The lines of the pipe, from the start of the handler on, against what a snapshot takes of them.
use funtrace.Prelude.{
  ℕ, zero, suc, ◌-◌, ◌≤◌, ◌≡◌, ap, sym, ◌∙◌, List, [], ◌∷◌, ◌++◌, map, arith, length, drop, filter,
  All, replicate, append-nil, subst, length-replicate,
}
use funtrace.Ftrace.Cyclic.{
  logged, parsed, on_lines, IsChronological, is_since, on_lines-logged, events_snapshot-logged,
}
use funtrace.Ftrace.{FtraceEvent, FtraceHandler, new_event, events_snapshot}

-- `events.resize(events_in_buf)` of the constructor.
abbrev pub started : ℕ → FtraceHandler
started events_in_buf = record { events = replicate events_in_buf new_event; pos = 0 }

All-drop : (P : FtraceEvent → Type 0) (n : ℕ) (es : List FtraceEvent) → All P es → All P (drop n es)
All-drop P zero es h = h
All-drop P (suc n) [] h = h
All-drop P (suc n) (e ∷ es) h = All-drop P n es h.1

IsChronological-drop :
    (n : ℕ) (es : List FtraceEvent) → IsChronological es → IsChronological (drop n es)
IsChronological-drop zero es h = h
IsChronological-drop (suc n) [] h = h
IsChronological-drop (suc n) (e ∷ es) h = IsChronological-drop n es h.1

after_new : (es : List FtraceEvent) → All (λ f. 0 ≤ f.timestamp) es
after_new [] = tt
after_new (e ∷ es) = (omega arith, after_new es)

-- Events that were never written stand in front of any.
IsChronological-replicate :
    (n : ℕ) (es : List FtraceEvent)
    → IsChronological es
    → IsChronological (replicate n new_event ++ es)
IsChronological-replicate zero es h = h
IsChronological-replicate (suc n) es h =
    (after_new (replicate n new_event ++ es), IsChronological-replicate n es h)

-- A time other than 0 leaves them out.
filter-drop_new :
    (earliest n k : ℕ) (es : List FtraceEvent)
    → 1 ≤ earliest
    → filter (is_since earliest) (drop k (replicate n new_event ++ es))
      ≡ filter (is_since earliest) (drop (k - n) es)
filter-drop_new earliest zero k es h =
    ap (λ j. filter (is_since earliest) (drop j es)) (omega arith)
filter-drop_new earliest (suc n) zero es h = ground (arith, filter-drop_new earliest n 0 es h, same)
  where
    same : 0 - n ≡ 0 - suc n
    same = omega arith
filter-drop_new earliest (suc n) (suc k) es h =
    filter-drop_new earliest n k es h
    ∙ ap (λ j. filter (is_since earliest) (drop j es)) (omega arith)

-- Where the lines of the pipe that have a time stamp come in the order of time, and the buffer has
-- room for an event, a snapshot since a time other than 0 takes, of the last `events_in_buf` of
-- them, exactly those from that time on, in order.
pub events_snapshot-on_lines :
    (earliest events_in_buf : ℕ) (ls : List (List ℕ))
    → 1 ≤ earliest
    → 1 ≤ events_in_buf
    → IsChronological (parsed ls)
    → events_snapshot earliest (on_lines ls (started events_in_buf))
      ≡ map
          (λ e. e.line)
          (filter (is_since earliest) (drop (length (parsed ls) - events_in_buf) (parsed ls)))
events_snapshot-on_lines earliest events_in_buf ls h k c =
    events_snapshot-logged earliest (on_lines ls (started events_in_buf)) sorted
    ∙ ap (λ es. map (λ e. e.line) (filter (is_since earliest) es)) held
    ∙ ap (map (λ e. e.line))
        (filter-drop_new earliest events_in_buf (length (parsed ls)) (parsed ls) h)
  where
    held :
        logged (on_lines ls (started events_in_buf))
        ≡ drop (length (parsed ls)) (replicate events_in_buf new_event ++ parsed ls)
    held =
        on_lines-logged ls (started events_in_buf)
          (omega (arith, length-replicate events_in_buf new_event))
        ∙ ap (λ es. drop (length (parsed ls)) (es ++ parsed ls))
            (append-nil (replicate events_in_buf new_event))

    sorted : IsChronological (logged (on_lines ls (started events_in_buf)))
    sorted = subst IsChronological (sym held) (
        IsChronological-drop (length (parsed ls)) _
          (IsChronological-replicate events_in_buf (parsed ls) c))
