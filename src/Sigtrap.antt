-- ===== src/Sigtrap.antt =====
-- The thread of funtrace.cpp that writes a snapshot when the process gets SIGTRAP: the handler's
-- mutex and flag, the steps of its constructor and destructor, of the signal handler and of the
-- thread, and their interleavings as sequences of turns.
pub mod Valid
pub mod Tokens
pub mod Ends
pub mod Served
mod Tests
use funtrace.Prelude.{ℕ, suc, ◌+◌, Bool, true, false, List, [], ◌∷◌, if◌then◌else◌}

-- Where the object that owns the thread is. Each but the last is before the statement it names.
pub data Owner : Type 0 where
  clear_quit : Owner
  lock_mutex : Owner
  start_thread : Owner
  install_handler : Owner
  set_quit : Owner
  unlock_mutex : Owner
  join_thread : Owner
  joined : Owner

-- Where the thread is, in the same way.
pub data Place : Type 0 where
  not_started : Place
  ignore_thread : Place
  lock_mutex : Place
  check_quit : Place
  write_snapshot : Place
  finished : Place

-- The members of `sigtrap_handler` and the places of the program that uses them, with whether the
-- thread is traced, the number of signals handled and the number of snapshots written.
pub record SigtrapHandler : Type 0 where
  pub locked : Bool
  pub quit : Bool
  pub owner : Owner
  pub thread : Place
  pub installed : Bool
  pub traced : Bool
  pub signals : ℕ
  pub snapshots : ℕ

-- Before the constructor. The flag has no value yet.
abbrev pub before_constructor : Bool → SigtrapHandler
before_constructor quit = record {
  locked = false;
  quit = quit;
  owner = Owner.clear_quit;
  thread = Place.not_started;
  installed = false;
  traced = true;
  signals = 0;
  snapshots = 0;
}

-- The next statement of the constructor, then of the destructor. A wait leaves the state.
unfoldable pub owner_at : Owner → SigtrapHandler → SigtrapHandler
owner_at Owner.clear_quit h = record h { quit = false; owner = Owner.lock_mutex }
owner_at Owner.lock_mutex h =
    if h.locked then h else record h { locked = true; owner = Owner.start_thread }
owner_at Owner.start_thread h = record h {
  thread = Place.ignore_thread;
  owner = Owner.install_handler;
}
owner_at Owner.install_handler h = record h { installed = true; owner = Owner.set_quit }
owner_at Owner.set_quit h = record h { quit = true; owner = Owner.unlock_mutex }
owner_at Owner.unlock_mutex h = record h { locked = false; owner = Owner.join_thread }
owner_at Owner.join_thread h = join_at h.thread h
  where
    join_at : Place → SigtrapHandler → SigtrapHandler
    join_at Place.finished h = record h { owner = Owner.joined }
    join_at Place.not_started h = h
    join_at Place.ignore_thread h = h
    join_at Place.lock_mutex h = h
    join_at Place.check_quit h = h
    join_at Place.write_snapshot h = h
owner_at Owner.joined h = h

-- The next statement of `thread_func`.
unfoldable pub thread_at : Place → SigtrapHandler → SigtrapHandler
thread_at Place.not_started h = h
thread_at Place.ignore_thread h = record h { traced = false; thread = Place.lock_mutex }
thread_at Place.lock_mutex h =
    if h.locked then h else record h { locked = true; thread = Place.check_quit }
thread_at Place.check_quit h = record h {
  thread = if h.quit then Place.finished else Place.write_snapshot;
}
thread_at Place.write_snapshot h = record h {
  snapshots = suc h.snapshots;
  thread = Place.lock_mutex;
}
thread_at Place.finished h = h

-- `signal_handler`, once it is installed.
unfoldable pub signal_handler : SigtrapHandler → SigtrapHandler
signal_handler h = if h.installed then record h { locked = false; signals = suc h.signals } else h

pub data Turn : Type 0 where
  of_owner : Turn
  of_thread : Turn
  of_signal : Turn

unfoldable pub turn : Turn → SigtrapHandler → SigtrapHandler
turn Turn.of_owner h = owner_at h.owner h
turn Turn.of_thread h = thread_at h.thread h
turn Turn.of_signal h = signal_handler h

-- Turns in any order. One whose statement waits changes nothing.
unfoldable pub turns : List Turn → SigtrapHandler → SigtrapHandler
turns [] h = h
turns (t ∷ ts) h = turns ts (turn t h)
