-- ===== src/Ftrace/Tests.antt =====
-- Lines of ftrace, and the theorems at them.
use funtrace.Ftrace.Files.{ftrace_init, write_files, write_file, warn}
use funtrace.Ftrace.Thread.{
  Place, before_constructor, is_finished, owner_at, thread_at, read_from, Turn, turn, turns,
}
use funtrace.Ftrace.Joined.{turns-ended}
use funtrace.Ftrace.Orphans.{KillResult, Name}
use funtrace.Prelude.{
  ◌==◌, if◌then◌else◌, ◌⊎◌, true, false, replicate, ◌++◌, ℕ, ◌-◌, ◌%◌, ◌^◌, ◌≡◌, refl, List, [],
  ◌∷◌, map, filter, drop, length, arith,
}
use funtrace.Search.{lower_bound}
use funtrace.Ftrace.Cyclic.{on_lines, parsed, is_since}
use funtrace.Ftrace.Pipe.{started, events_snapshot-on_lines}
use funtrace.Ftrace.Timestamp.{decimal, parse_timestamp-decimal}
use funtrace.Ftrace.{
  before_colon, digits_before, parse_timestamp, on_line, find_earliest_ftrace_event_after,
  copy_lines, events_snapshot,
}

-- "m-5 12: s", "m-5 34: s", a line that is no event, "m-5 56: s"
abbrev twelve : List ℕ
twelve = b'm' ∷ b'-' ∷ b'5' ∷ b' ' ∷ b'1' ∷ b'2' ∷ b':' ∷ b' ' ∷ b's' ∷ []

abbrev thirty_four : List ℕ
thirty_four = b'm' ∷ b'-' ∷ b'5' ∷ b' ' ∷ b'3' ∷ b'4' ∷ b':' ∷ b' ' ∷ b's' ∷ []

abbrev lost : List ℕ
lost = b'L' ∷ b'O' ∷ b'S' ∷ b'T' ∷ []

abbrev fifty_six : List ℕ
fifty_six = b'm' ∷ b'-' ∷ b'5' ∷ b' ' ∷ b'5' ∷ b'6' ∷ b':' ∷ b' ' ∷ b's' ∷ []

abbrev pipe : List (List ℕ)
pipe = twelve ∷ thirty_four ∷ lost ∷ fifty_six ∷ []

lost_timestamp : parse_timestamp lost ≡ 0
unfolding parse_timestamp before_colon
lost_timestamp = refl

since_forty : events_snapshot 40 (on_lines pipe (started 2)) ≡ fifty_six ∷ []
unfolding events_snapshot on_line parse_timestamp before_colon digits_before copy_lines
    find_earliest_ftrace_event_after lower_bound
since_forty = refl

parse_timestamp-decimal_example : parse_timestamp twelve ≡ decimal 0 (b'1' ∷ b'2' ∷ []) % 2 ^ 64
parse_timestamp-decimal_example =
    parse_timestamp-decimal (b'm' ∷ b'-' ∷ b'5' ∷ []) (b'1' ∷ b'2' ∷ []) (b's' ∷ []) (ground arith)
      (omega arith)

events_snapshot-on_lines_example :
    events_snapshot 1 (on_lines pipe (started 2))
    ≡ map (λ e. e.line) (filter (is_since 1) (drop (length (parsed pipe) - 2) (parsed pipe)))
unfolding parse_timestamp before_colon digits_before
events_snapshot-on_lines_example =
    events_snapshot-on_lines 1 2 pipe (omega arith) (omega arith) (omega arith)

-- A constructor and a destructor, with a line that wakes the thread for the end.
abbrev life : List Turn
life =
    replicate 4 Turn.of_owner
    ++ replicate 4 Turn.of_thread
    ++ replicate 4 Turn.of_owner
    ++ Turn.of_kernel twelve ∷ replicate 7 Turn.of_thread
    ++ replicate 2 Turn.of_owner

turns-ended_example :
    let c =
      turns
        (record {
          events_in_buf = 4;
          pid = 12;
          tid = 13;
          has_directory = false;
          can_make = true;
          can_open = λ f. true;
        })
        life
        (before_constructor true true) in
    ((c.thread ≡ Place.not_started) × (c.has_started ≡ false)) ⊎ (is_finished c.thread ≡ true)
unfolding turns turn owner_at thread_at read_from ftrace_init write_files write_file warn
turns-ended_example =
    turns-ended
      (record {
        events_in_buf = 4;
        pid = 12;
        tid = 13;
        has_directory = false;
        can_make = true;
        can_open = λ f. true;
      })
      true true life refl

-- Process 12 is there, 7 is not.
abbrev kill : ℕ → KillResult
kill pid = if pid == 12 then KillResult.sent else KillResult.failed

abbrev names : List Name
names =
    Name.instance_of (b'1' ∷ b'2' ∷ [])
    ∷ Name.other (b'f' ∷ b'o' ∷ b'o' ∷ [])
    ∷ Name.instance_of (b'7' ∷ [])
    ∷ []
