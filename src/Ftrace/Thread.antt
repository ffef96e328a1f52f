-- ===== src/Ftrace/Thread.antt =====
-- The thread that collects ftrace events in funtrace.cpp: the steps of the handler's constructor and
-- destructor and of the thread, and their interleavings as sequences of turns. What the kernel's
-- files answer, and the lines that it puts into the pipe, come from outside.
use funtrace.Prelude.{ℕ, Bool, true, false, ◌||◌, List, [], ◌∷◌, ◌++◌, ◌==◌, if◌then◌else◌}
use funtrace.Ftrace.Pipe.{started}
use funtrace.Ftrace.Files.{Tracer, Setting, ftrace_init, write_files, thread_files}
use funtrace.Ftrace.{FtraceHandler, on_line}

-- Where the object that owns the thread is: each but the last is before the statement it names. The
-- program runs before `check_started`, which begins the destructor.
pub data Owner : Type 0 where
  clear_flags : Owner
  init_ftrace : Owner
  lock_mutex : Owner
  start_thread : Owner
  lock_again : Owner
  unlock_mutex : Owner
  check_started : Owner
  set_quit : Owner
  wait_done : Owner
  join_thread : Owner
  ended : Owner

pub data Place : Type 0 where
  not_started : Place
  set_started : Place
  set_up : Place
  unlock_start : Place
  check_quit : Place
  read_line : Place
  lock_line : Place
  log_line : Place
  unlock_line : Place
  set_done : Place
  finished : Place

-- The members of `ftrace_handler`, the thread's `line`, the places, and the lines in the pipe.
pub record Collecting : Type 0 where
  pub locked : Bool
  pub tracer : Tracer
  pub has_started : Bool
  pub quit : Bool
  pub done : Bool
  pub handler : FtraceHandler
  pub owner : Owner
  pub thread : Place
  pub line : List ℕ
  pub pipe : List (List ℕ)

-- The members' initializers. The atomic flags have no value yet.
abbrev pub before_constructor : Bool → Bool → Collecting
before_constructor quit done = record {
  locked = false;
  tracer = record { init_errors = false; warnings = 0; written = [] };
  has_started = false;
  quit = quit;
  done = done;
  handler = started 0;
  owner = Owner.clear_flags;
  thread = Place.not_started;
  line = [];
  pipe = [];
}

abbrev pub is_finished : Place → Bool
is_finished Place.not_started = false
is_finished Place.set_started = false
is_finished Place.set_up = false
is_finished Place.unlock_start = false
is_finished Place.check_quit = false
is_finished Place.read_line = false
is_finished Place.lock_line = false
is_finished Place.log_line = false
is_finished Place.unlock_line = false
is_finished Place.set_done = false
is_finished Place.finished = true

-- The next statement of the constructor, then of the destructor. A wait leaves the state.
unfoldable pub owner_at : Setting → Owner → Collecting → Collecting
owner_at e Owner.clear_flags c =
    if e.events_in_buf == 0
    then record c {
      quit = false;
      done = false;
      tracer = record c.tracer { init_errors = true };
      owner = Owner.check_started;
    }
    else record c { quit = false; done = false; owner = Owner.init_ftrace }
owner_at e Owner.init_ftrace c =
    let tracer = ftrace_init e c.tracer in
    if tracer.init_errors
    then record c { tracer = tracer; owner = Owner.check_started }
    else record c { tracer = tracer; owner = Owner.lock_mutex }
owner_at e Owner.lock_mutex c =
    if c.locked then c else record c { locked = true; owner = Owner.start_thread }
owner_at e Owner.start_thread c = record c {
  handler = started e.events_in_buf;
  thread = Place.set_started;
  owner = Owner.lock_again;
}
owner_at e Owner.lock_again c =
    if c.locked then c else record c { locked = true; owner = Owner.unlock_mutex }
owner_at e Owner.unlock_mutex c = record c { locked = false; owner = Owner.check_started }
owner_at e Owner.check_started c =
    if c.has_started then record c { owner = Owner.set_quit } else record c { owner = Owner.ended }
owner_at e Owner.set_quit c = record c { quit = true; owner = Owner.wait_done }
owner_at e Owner.wait_done c = if c.done then record c { owner = Owner.join_thread } else c
owner_at e Owner.join_thread c =
    if is_finished c.thread then record c { owner = Owner.ended } else c
owner_at e Owner.ended c = c

-- `getline` of the pipe, which waits for a line.
unfoldable pub read_from : List (List ℕ) → Collecting → Collecting
read_from [] c = c
read_from (line ∷ lines) c = record c { line = line; pipe = lines; thread = Place.lock_line }

-- The next statement of `thread_func`.
unfoldable pub thread_at : Setting → Place → Collecting → Collecting
thread_at e Place.not_started c = c
thread_at e Place.set_started c = record c { has_started = true; thread = Place.set_up }
thread_at e Place.set_up c =
    let tracer = write_files e (thread_files e) c.tracer in
    record c { tracer = tracer; quit = tracer.init_errors || c.quit; thread = Place.unlock_start }
thread_at e Place.unlock_start c = record c { locked = false; thread = Place.check_quit }
thread_at e Place.check_quit c = record c {
  thread = if c.quit then Place.set_done else Place.read_line;
}
thread_at e Place.read_line c = read_from c.pipe c
thread_at e Place.lock_line c =
    if c.locked then c else record c { locked = true; thread = Place.log_line }
thread_at e Place.log_line c = record c {
  handler = on_line c.line c.handler;
  thread = Place.unlock_line;
}
thread_at e Place.unlock_line c = record c { locked = false; thread = Place.check_quit }
thread_at e Place.set_done c = record c { done = true; thread = Place.finished }
thread_at e Place.finished c = c

pub data Turn : Type 0 where
  of_owner : Turn
  of_thread : Turn
  of_kernel : List ℕ → Turn

unfoldable pub turn : Setting → Turn → Collecting → Collecting
turn e Turn.of_owner c = owner_at e c.owner c
turn e Turn.of_thread c = thread_at e c.thread c
turn e (Turn.of_kernel line) c = record c { pipe = c.pipe ++ line ∷ [] }

-- Turns in any order. One whose statement waits changes nothing.
unfoldable pub turns : Setting → List Turn → Collecting → Collecting
turns e [] c = c
turns e (t ∷ ts) c = turns e ts (turn e t c)
