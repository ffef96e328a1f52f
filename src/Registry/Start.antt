-- ===== src/Registry/Start.antt =====
-- The registry's constructor, and the objects of type `trace_data` before any thread registers.
use funtrace.Prelude.{replicate, ℕ, false, Option, some, List, [], ◌>>=◌}
use funtrace.Config.{Env, env_int, funtrace_gc_max_age_ms}
use funtrace.Clock.{Cpuid, cpu_cycles_per_second}
use funtrace.CmdLine.{get_cmdline}
use funtrace.TraceBuffer.Layout.{Memory}
use funtrace.TraceBuffer.{TraceData}
use funtrace.Registry.{State}

-- What the constructor reads: `getpid()`, the file of the command line, the sources of the
-- frequency, and `realpath("/proc/self/exe")`.
pub record Host : Type 0 where
  pub getpid : ℕ
  pub cmdline_file : Option (List ℕ)
  pub cpuid : Cpuid
  pub dmesg : ℕ
  pub start : ℕ
  pub finish : ℕ
  pub exe : List ℕ

-- A `thread_local` object is zeroed, its name too.
abbrev pub zeroed : TraceData
zeroed = record {
  pos = 0;
  wraparound_mask = 0;
  buf = 0;
  buf_size = 0;
  thread = 0;
  id = record { pid = 0; tid = 0; name = replicate 16 0 };
  time_of_death_ms = 0;
}

-- The members' initial values, with the command line that was read.
abbrev pub started : Env → Host → Memory → List ℕ → State
started getenv host mem line = record {
  memory = mem;
  traces = λ p. zeroed;
  thread_traces = [];
  pid = host.getpid;
  cmdline = line;
  cpu_freq = cpu_cycles_per_second host.cpuid host.dmesg host.start host.finish;
  exe_path = host.exe;
  gc_max_age_ms = env_int getenv "FUNTRACE_GC_MAX_AGE_MS" funtrace_gc_max_age_ms;
  exiting = false;
  tracing_paused = false;
  deleted = [];
  released = [];
}

-- `none` is the undefined behaviour of `get_cmdline`.
unfoldable pub trace_global_state : Env → Host → Memory → Option State
trace_global_state getenv host mem =
    get_cmdline host.cmdline_file >>= λ line. some (started getenv host mem line)
