-- ===== src/History/Tests.antt =====
-- A run in which a thread registers, a function is traced, and tracing is paused; and what a
-- snapshot shows of it.
use funtrace.Prelude.{
  ℕ, length, List, replicate, ◌≤◌, ◌≡◌, refl, subst, inr, some, [], ◌∷◌, map, arith, ◌==◌, pos, All,
  Bool-cases, inl,
}
use funtrace.TraceBuffer.Refine.{entry_of}
use funtrace.TraceBuffer.{trace}
use funtrace.TraceBuffer
use funtrace.Snapshot.{FuntraceSnapshot}
use funtrace.Registry.Reachable.{begin}
use funtrace.Registry.System.{World, register, pause, call, traced}
use funtrace.Registry.{State, pause_tracing}
use funtrace.Registry
use funtrace.Registry.Runs.{
  host, empty, blank, first, first_starts, one_block, one_block-IsAligned, thread, running,
  running_registers, paused,
}
use funtrace.Api.{Outside, funtrace_pause_and_get_snapshot_starting_at_time}
use funtrace.History.Snapshots.{IsQuiet, starting_at_time-Run}
use funtrace.Registry.Pointers.{count}
use funtrace.Api.{funtrace_disable_tracing}
use funtrace.History.Programs.{in_state, with_block, traces}
use funtrace.History.Written.{trace_contents, funtrace_write_snapshot-Run}
use funtrace.Format.Chunks.{Chunk, read_chunks}
use funtrace.Format.{entries_bytes, funtrace_write_snapshot}
use funtrace.History.{Logs, Run, begun, further, put_log}

abbrev outside : Outside
outside = record { getname = λ p. replicate 16 b'n'; procmaps = b'm' ∷ []; ftrace = λ t. [] }

abbrev history : Logs
history = put_log 64 (entry_of 5 0 30 ∷ []) (put_log 64 [] (λ b. []))

run : Run (begin first) (record { state = paused; allocated = 64 ∷ [] }) history
run =
    further
      (further
        (further begun
          (register empty one_block thread (pos 5) running one_block-IsAligned refl
            running_registers (inr refl))
          (λ q k. absurd (omega (arith, k))))
        (call 100 5 0 30 (omega arith)) (omega arith, tt))
      pause tt

quiet : IsQuiet 40 paused history
unfolding pause_tracing TraceBuffer.pause_tracing trace Registry.modify_all
quiet p k = elim (Bool-cases (100 == p)) [
  | inl e ↦
      let same : 100 ≡ p = ground arith in
      subst
        (λ p.
          (1 ≤ (paused.traces p).buf_size)
          × All (λ e. e.cycle ≤ 40) (history (paused.traces p).buf))
        same (omega arith, (omega arith, tt))
  | inr e ↦ absurd (ground arith)
]

starting_at_time-Run_example :
    (snapshot : FuntraceSnapshot) × (s' : State) × (funtrace_pause_and_get_snapshot_starting_at_time
        outside 40 20 paused
      ≡ some (snapshot, s'))
    × (map (λ b. b.buf) snapshot.thread_traces ≡ (entry_of 5 0 30 ∷ []) ∷ [])
unfolding pause_tracing TraceBuffer.pause_tracing trace Registry.modify_all
starting_at_time-Run_example =
    starting_at_time-Run empty host blank first_starts run outside 40 20 (omega arith) quiet

named : (p : ℕ) → 1 ≤ count p paused.thread_traces → length (paused.traces p).id.name ≡ 16
unfolding pause_tracing TraceBuffer.pause_tracing trace Registry.modify_all
named p k = elim (Bool-cases (100 == p)) [
  | inl e ↦
      let same : 100 ≡ p = ground arith in
      subst (λ p. length (paused.traces p).id.name ≡ 16) same refl
  | inr e ↦ absurd (ground arith)
]

funtrace_write_snapshot-Run_example :
    (snapshot : FuntraceSnapshot) × (s' : State) × (chunks : List Chunk)
    × (funtrace_pause_and_get_snapshot_starting_at_time outside 40 20 paused ≡ some (snapshot, s'))
    × (read_chunks (length chunks) (funtrace_write_snapshot paused.cpu_freq paused.cmdline snapshot)
        ≡ some chunks)
    × (trace_contents chunks ≡ entries_bytes (entry_of 5 0 30 ∷ []) ∷ [])
unfolding pause_tracing TraceBuffer.pause_tracing trace Registry.modify_all
funtrace_write_snapshot-Run_example =
    funtrace_write_snapshot-Run empty host blank first_starts run outside 40 20 (omega arith) quiet
      (λ thread. refl) named (omega arith) (omega arith) (omega arith)

abbrev called : World
called = in_state (with_block (begin first) thread running) (traced 100 5 0 30 running)

-- The call is recorded, tracing is disabled, and another call is not.
abbrev disabled : World
disabled = in_state called (funtrace_disable_tracing called.state)

abbrev called_again : World
called_again = in_state disabled (traced 100 6 0 40 disabled.state)
