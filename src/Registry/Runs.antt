-- ===== src/Registry/Runs.antt =====
-- A run of a program: a thread registers, a function is traced, and tracing is paused; and the
-- theorems on reachable states at it.
use funtrace.Prelude.{
  replicate, ℕ, ◌+◌, ◌-◌, ◌≤◌, ◌<◌, ◌≡◌, refl, inr, true, false, none, some, [], ◌∷◌, ◌++◌, drop,
  arith, ltb, ◌==◌, if◌then◌else◌, pos, ◌^◌,
}
use funtrace.Config.{Env}
use funtrace.CmdLine.{get_cmdline, nulls_to_spaces}
use funtrace.TraceBuffer.Layout.{Memory}
use funtrace.TraceBuffer.Allocate.{IsAligned}
use funtrace.TraceBuffer.Refine.{chronological, entry_of}
use funtrace.TraceBuffer.{TraceData, MemAlign, allocate, shift_one}
use funtrace.Registry.Pointers.{count}
use funtrace.Registry.Ready.{IsReady}
use funtrace.Registry.Start.{Host, started, trace_global_state}
use funtrace.Registry.Reachable.{begin, Reach-blocks, Reach-IsReady, Reach-traced}
use funtrace.Registry.System.{Reach, register, pause, call, here, next, blocks, traced}
use funtrace.Registry.{State, Thread, update, registered, register_this_thread, pause_tracing}

abbrev pub host : Host
host = record {
  getpid = 7;
  cmdline_file = some (b'p' ∷ 0 ∷ []);
  cpuid = λ leaf. record { eax = 22; ebx = 2750; ecx = 24000000 };
  dmesg = 0;
  start = 0;
  finish = 0;
  exe = [];
}

abbrev pub empty : Env
empty name = none

abbrev pub blank : Memory
blank a = record { func = 0; cycle = 0 }

abbrev pub first : State
first = started empty host blank (b'p' ∷ [])

pub first_starts : trace_global_state empty host blank ≡ some first
unfolding trace_global_state get_cmdline nulls_to_spaces
first_starts = refl

-- An allocator whose blocks start at their own alignment.
abbrev pub one_block : MemAlign
one_block alignment size = if ltb alignment (2 ^ 40) then some alignment else none

one_block_address :
    (alignment size p : ℕ)
    → one_block alignment size ≡ some p
    → (p ≡ alignment) × (alignment < 2 ^ 40)
one_block_address alignment size p e = ground arith

pub one_block-IsAligned : IsAligned one_block
one_block-IsAligned = record {
  multiple =
      λ alignment size p e. (1, omega (arith, one_block_address alignment size p e), omega arith);
  address = λ alignment size p e. omega (arith, one_block_address alignment size p e);
}

abbrev pub thread : Thread
thread = record { self = 100; tid = 5; pthread = 9 }

abbrev pub fresh_buffer : Memory × TraceData
fresh_buffer = (
  λ a. if a == 80 then record { func = 0; cycle = 0 } else blank a,
  record {
    pos = 64;
    wraparound_mask = 2 ^ 64 - 1 - 32;
    buf = 64;
    buf_size = 32;
    thread = 0;
    id = record { pid = 0; tid = 0; name = replicate 16 0 };
    time_of_death_ms = 0;
  },
)

abbrev pub running : State
running = record first {
  memory = fresh_buffer.0;
  traces = update 100 (registered first thread fresh_buffer.1) first.traces;
  thread_traces = 100 ∷ [];
}

pub running_registers : register_this_thread empty one_block thread (pos 5) first ≡ some running
unfolding register_this_thread allocate shift_one
running_registers = refl

abbrev pub paused : State
paused = pause_tracing (traced 100 5 0 30 running)

run : Reach (begin first) (record { state = paused; allocated = 64 ∷ [] })
run =
    next
      (next
        (next here (
          register empty one_block thread (pos 5) running one_block-IsAligned refl running_registers
            (inr refl)))
        (call 100 5 0 30 (omega arith)))
      pause

known : 1 ≤ count 100 paused.thread_traces
unfolding pause_tracing
known = omega arith

Reach-blocks_example :
    let held = count 64 (blocks paused.traces paused.thread_traces) in
    (held + count 64 paused.released ≡ 1) × (held ≤ 1)
Reach-blocks_example = Reach-blocks empty host blank first_starts run 64 (omega arith)

Reach-IsReady_example :
    (count 100 paused.thread_traces ≡ 1) × IsReady paused.tracing_paused (paused.traces 100)
Reach-IsReady_example = Reach-IsReady empty host blank first_starts run 100 known

Reach-traced_example :
    let s' = traced 100 6 0 40 paused in
    let t = paused.traces 100 in
    (paused.tracing_paused ≡ true → (s'.memory ≡ paused.memory) × (s'.traces 100 ≡ t))
    × (paused.tracing_paused ≡ false
        → 1 ≤ t.buf_size
        → chronological (s'.memory, s'.traces 100)
          ≡ drop 1 (chronological (paused.memory, t)) ++ entry_of 6 0 40 ∷ [])
Reach-traced_example = Reach-traced empty host blank first_starts run 100 6 0 40 known
