-- ===== src/Collector/Life.antt =====
-- The life of the thread that collects garbage (funtrace.cpp, funtrace_gc): its mutex, condition and
-- flags, the statements of the constructor and the destructor and of the thread, and their
-- interleavings as sequences of turns. A wait that runs out of time is a turn of the thread.
use funtrace.Prelude.{
  ℕ, ◌||◌, Bool, true, false, not, List, [], ◌∷◌, ◌++◌, if◌then◌else◌, ℤ, pos, is_zero,
}
use funtrace.Config.{Env, env_int, funtrace_gc_period_ms}
use funtrace.Registry.{State, Thread, collect_garbage}
use funtrace.Api.{funtrace_ignore_this_thread}
use funtrace.Collector.{Wake}

-- Where the object that owns the thread is: before the statement it names. From `test_period` on it
-- is in the destructor.
pub data Owner : Type 0 where
  read_period : Owner
  clear_quit : Owner
  clear_done : Owner
  start_thread : Owner
  test_period : Owner
  set_quit : Owner
  lock_mutex : Owner
  notify : Owner
  unlock_mutex : Owner
  join_thread : Owner
  joined : Owner

-- Where the thread is, in the same way; it waits for the condition at `waiting`, and locks the mutex
-- again once it is awake.
pub data Place : Type 0 where
  not_started : Place
  ignore_thread : Place
  lock_mutex : Place
  begin_wait : Place
  waiting : Place
  lock_again : Place
  check_quit : Place
  collect : Place
  unlock_mutex : Place
  set_done : Place
  finished : Place

-- The members of `funtrace_gc`, the variables of `thread_func` and the places of both, with the
-- registry and the rounds that the thread has made.
pub record FuntraceGc : Type 0 where
  pub locked : Bool
  pub gc_period_ms : ℤ
  pub quit : Bool
  pub done : Bool
  pub owner : Owner
  pub thread : Place
  pub timed_out : Bool
  pub exiting : Bool
  pub registry : State
  pub rounds : List Wake

-- Before the constructor.
abbrev pub before_constructor : State → FuntraceGc
before_constructor s = record {
  locked = false;
  gc_period_ms = pos 0;
  quit = false;
  done = false;
  owner = Owner.read_period;
  thread = Place.not_started;
  timed_out = false;
  exiting = false;
  registry = s;
  rounds = [];
}

-- A notification, or a wake-up without one, ends a wait.
abbrev pub awake : Place → FuntraceGc → FuntraceGc
awake Place.waiting g = record g { timed_out = false; thread = Place.lock_again }
awake Place.not_started g = g
awake Place.ignore_thread g = g
awake Place.lock_mutex g = g
awake Place.begin_wait g = g
awake Place.lock_again g = g
awake Place.check_quit g = g
awake Place.collect g = g
awake Place.unlock_mutex g = g
awake Place.set_done g = g
awake Place.finished g = g

abbrev pub is_finished : Place → Bool
is_finished Place.finished = true
is_finished Place.waiting = false
is_finished Place.not_started = false
is_finished Place.ignore_thread = false
is_finished Place.lock_mutex = false
is_finished Place.begin_wait = false
is_finished Place.lock_again = false
is_finished Place.check_quit = false
is_finished Place.collect = false
is_finished Place.unlock_mutex = false
is_finished Place.set_done = false

-- The next statement of the constructor, then of the destructor. A statement that waits leaves the
-- state.
unfoldable pub owner_at : Env → Owner → FuntraceGc → FuntraceGc
owner_at getenv Owner.read_period g =
    let period = env_int getenv "FUNTRACE_GC_PERIOD_MS" funtrace_gc_period_ms in
    record g {
      gc_period_ms = period;
      owner = if is_zero period then Owner.test_period else Owner.clear_quit;
    }
owner_at getenv Owner.clear_quit g = record g { quit = false; owner = Owner.clear_done }
owner_at getenv Owner.clear_done g = record g { done = false; owner = Owner.start_thread }
owner_at getenv Owner.start_thread g = record g {
  thread = Place.ignore_thread;
  owner = Owner.test_period;
}
owner_at getenv Owner.test_period g = record g {
  owner = if is_zero g.gc_period_ms then Owner.joined else Owner.set_quit;
}
owner_at getenv Owner.set_quit g = record g { quit = true; owner = Owner.lock_mutex }
owner_at getenv Owner.lock_mutex g =
    if g.locked then g else record g { locked = true; owner = Owner.notify }
owner_at getenv Owner.notify g = record (awake g.thread g) { owner = Owner.unlock_mutex }
owner_at getenv Owner.unlock_mutex g = record g { locked = false; owner = Owner.join_thread }
owner_at getenv Owner.join_thread g = record g {
  owner = if is_finished g.thread then Owner.joined else Owner.join_thread;
}
owner_at getenv Owner.joined g = g

-- The next statement of `thread_func`, at a time.
unfoldable pub thread_at : Thread → ℕ → Place → FuntraceGc → FuntraceGc
thread_at me now Place.not_started g = g
thread_at me now Place.ignore_thread g = record g {
  registry = funtrace_ignore_this_thread me g.registry;
  thread = Place.lock_mutex;
}
thread_at me now Place.lock_mutex g =
    if g.locked then g else record g { locked = true; thread = Place.begin_wait }
thread_at me now Place.begin_wait g = record g { locked = false; thread = Place.waiting }
thread_at me now Place.waiting g = record g { timed_out = true; thread = Place.lock_again }
thread_at me now Place.lock_again g =
    if g.locked then g else record g { locked = true; thread = Place.check_quit }
thread_at me now Place.check_quit g = record g {
  exiting = not g.timed_out || g.quit;
  thread = Place.collect;
}
thread_at me now Place.collect g = record g {
  registry = collect_garbage now g.exiting g.registry;
  rounds = g.rounds ++ record { now = now; exiting = g.exiting } ∷ [];
  thread = Place.unlock_mutex;
}
thread_at me now Place.unlock_mutex g = record g {
  locked = false;
  thread = if g.exiting then Place.set_done else Place.lock_mutex;
}
thread_at me now Place.set_done g = record g { done = true; thread = Place.finished }
thread_at me now Place.finished g = g

-- A turn of the owner, of the thread at a time, or of the system, which may wake a wait up without a
-- notification.
pub data Turn : Type 0 where
  of_owner : Turn
  of_thread : ℕ → Turn
  of_system : Turn

unfoldable pub turn : Env → Thread → Turn → FuntraceGc → FuntraceGc
turn getenv me Turn.of_owner g = owner_at getenv g.owner g
turn getenv me (Turn.of_thread now) g = thread_at me now g.thread g
turn getenv me Turn.of_system g = awake g.thread g

-- Turns in any order.
unfoldable pub turns : Env → Thread → List Turn → FuntraceGc → FuntraceGc
turns getenv me [] g = g
turns getenv me (t ∷ ts) g = turns getenv me ts (turn getenv me t g)
