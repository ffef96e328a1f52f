-- ===== src/Ftrace.antt =====
-- The collection of ftrace events in funtrace.cpp: the time stamp of a line, the cyclic buffer of
-- events, and what a snapshot copies from it. The mutex is held over each step.
pub mod Cyclic
pub mod Pipe
pub mod Timestamp
pub mod Files
pub mod Thread
pub mod Awaited
pub mod Joined
pub mod Orphans
mod Tests
use funtrace.Prelude.{
  ℕ, zero, suc, ◌+◌, ◌-◌, ◌*◌, ◌%◌, ◌^◌, Bool, true, false, not, ◌&&◌, ◌||◌, Option, none, some,
  List, [], ◌∷◌, ◌++◌, map, ltb, ◌==◌, if◌then◌else◌, length, get_or, set, take, drop,
}
use funtrace.Search.{lower_bound}

pub record FtraceEvent : Type 0 where
  pub timestamp : ℕ
  pub line : List ℕ

-- An event as `ftrace_event()` makes it.
abbrev pub new_event : FtraceEvent
new_event = record { timestamp = 0; line = [] }

pub record FtraceHandler : Type 0 where
  pub events : List FtraceEvent
  pub pos : ℕ

abbrev pub starts_space : List ℕ → Bool
starts_space [] = false
starts_space (c ∷ s) = c == b' '

-- What stands in front of the first ": ", the last character first; `strstr` stops at a null.
unfoldable pub before_colon : List ℕ → List ℕ → Option (List ℕ)
before_colon seen [] = none
before_colon seen (c ∷ s) =
    let rest = before_colon (c ∷ seen) s in
    if c == 0 then none else if c == b':' && starts_space s then some seen else rest

-- The loop backwards from the colon. At the line's start the character is a digit, or the colon.
unfoldable pub digits_before : ℕ → ℕ → List ℕ → ℕ
digits_before time mult [] = 0
digits_before time mult (c ∷ s) =
    let rest = digits_before ((time + (c - b'0') * mult) % 2 ^ 64) (mult * 10 % 2 ^ 64) s in
    if c == b' ' then time else if ltb c b'0' || ltb b'9' c then 0 else rest

unfoldable pub parse_timestamp : List ℕ → ℕ
parse_timestamp line = elim (before_colon [] line) [ none ↦ 0 | some seen ↦ digits_before 0 1 seen ]

-- One round of the loop of `thread_func`, for a line of the pipe.
unfoldable pub on_line : List ℕ → FtraceHandler → FtraceHandler
on_line line h =
    let time = parse_timestamp line in
    if time == 0 then h else record h {
      events = set h.events h.pos (record { timestamp = time; line = line });
      pos = (h.pos + 1) % length h.events;
    }

abbrev pub cmp_events : FtraceEvent → FtraceEvent → Bool
cmp_events e1 e2 = ltb e1.timestamp e2.timestamp

-- The place in a range, from its start; `none` is `nullptr`.
unfoldable pub find_earliest_ftrace_event_after : List FtraceEvent → ℕ → Option ℕ
find_earliest_ftrace_event_after range earliest_timestamp =
    let evt : FtraceEvent = record { timestamp = earliest_timestamp; line = [] } in
    let p = lower_bound (λ i. cmp_events (get_or range i new_event) evt) (length range) in
    if p == length range then none else some p

-- `copy` of the lines from the place found to the end of the range.
unfoldable pub copy_lines : Option ℕ → List FtraceEvent → List (List ℕ)
copy_lines none range = []
copy_lines (some p) range = map (λ e. e.line) (drop p range)

unfoldable pub events_snapshot : ℕ → FtraceHandler → List (List ℕ)
events_snapshot earliest_timestamp h =
    let right = drop h.pos h.events in
    let left = take h.pos h.events in
    copy_lines (find_earliest_ftrace_event_after right earliest_timestamp) right
    ++ copy_lines (find_earliest_ftrace_event_after left earliest_timestamp) left
