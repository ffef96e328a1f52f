-- ===== src/Ftrace/Files.antt =====
-- The files of the tracer instance that the ftrace handler of funtrace.cpp writes. Whether the
-- directory and the files can be opened comes from outside.
use funtrace.Prelude.{ℕ, suc, Bool, true, not, ◌&&◌, List, [], ◌∷◌, ◌++◌, if◌then◌else◌}
use Prim.Native.String.{String}

-- What is written: a text, or what `snprintf` makes of the numbers of the process and the thread.
pub data Contents : Type 0 where
  text : String → Contents
  decimal : ℕ → Contents
  sched_switch_filter : ℕ → Contents
  sched_waking_filter : ℕ → Contents

pub record Written : Type 0 where
  pub file : String
  pub contents : Contents

-- The handler's `init_errors`, the number of warnings printed, and the files written so far.
pub record Tracer : Type 0 where
  pub init_errors : Bool
  pub warnings : ℕ
  pub written : List Written

-- What the process is started with: `getpid()`, the thread's `gettid()`, whether the instance's
-- directory is there or can be made, and which of its files can be opened. The number of events is
-- not negative: what `resize` does at a negative one is left out.
pub record Setting : Type 0 where
  pub events_in_buf : ℕ
  pub pid : ℕ
  pub tid : ℕ
  pub has_directory : Bool
  pub can_make : Bool
  pub can_open : String → Bool

unfoldable pub warn : Tracer → Tracer
warn t = if t.init_errors then t else record t { init_errors = true; warnings = suc t.warnings }

-- Where the file cannot be opened, nothing is written to it.
unfoldable pub write_file : Setting → String → Contents → Tracer → Tracer
write_file e file contents t =
    if e.can_open file
    then record t { written = t.written ++ record { file = file; contents = contents } ∷ [] }
    else warn t

-- Some files one after another.
unfoldable pub write_files : Setting → List Written → Tracer → Tracer
write_files e [] t = t
write_files e (w ∷ ws) t = write_files e ws (write_file e w.file w.contents t)

abbrev pub init_files : Setting → List Written
init_files e =
    record { file = "tracing_on"; contents = Contents.text "0" }
    ∷ record { file = "trace"; contents = Contents.text "" }
    ∷ record { file = "events/sched/sched_switch/enable"; contents = Contents.text "1" }
    ∷ record { file = "events/sched/sched_waking/enable"; contents = Contents.text "1" }
    ∷ record { file = "events/task/task_newtask/enable"; contents = Contents.text "1" }
    ∷ record { file = "events/task/task_rename/enable"; contents = Contents.text "1" }
    ∷ record { file = "set_event_pid"; contents = Contents.decimal e.pid }
    ∷ record { file = "options/event-fork"; contents = Contents.text "1" }
    ∷ record { file = "trace_clock"; contents = Contents.text "x86-tsc" }
    ∷ []

unfoldable pub ftrace_init : Setting → Tracer → Tracer
ftrace_init e t =
    if not e.has_directory && not e.can_make then warn t else write_files e (init_files e) t

-- The files that the thread writes before it reads the pipe.
abbrev pub thread_files : Setting → List Written
thread_files e =
    record {
      file = "events/sched/sched_switch/filter";
      contents = Contents.sched_switch_filter e.tid;
    }
    ∷ record {
      file = "events/sched/sched_waking/filter";
      contents = Contents.sched_waking_filter e.tid;
    }
    ∷ record { file = "tracing_on"; contents = Contents.text "1" }
    ∷ []
