-- ===== src/History/Written.antt =====
-- The file of a snapshot that is taken in a run.
use funtrace.Prelude.{
  ℕ, ◌^◌, ◌≤◌, ◌<◌, ◌≡◌, refl, ap, ◌∙◌, Bool, true, false, ◌&&◌, some, List, [], ◌∷◌, ◌++◌, map,
  arith, All, length, ◌==◌, if◌then◌else◌, append-nil,
}
use funtrace.Config.{Env}
use funtrace.TraceBuffer.Layout.{TraceEntry, Memory}
use funtrace.Registry.Pointers.{count}
use funtrace.Registry.System.{World}
use funtrace.Registry.{State}
use funtrace.Registry.Reachable.{begin, begin-Good}
use funtrace.Registry.Start.{Host, trace_global_state}
use funtrace.Snapshot.{EventBuffer, FuntraceSnapshot}
use funtrace.Format.Chunks.{Chunk, read_chunks}
use funtrace.Format.RoundTrip.{
  chunk, thread_chunks, ftrace_chunks, lines_text, snapshot_chunks,
  read_chunks-funtrace_write_snapshot,
}
use funtrace.Format.{tracebuf, endtrace, magic_bytes, entries_bytes, funtrace_write_snapshot}
use funtrace.Api.{Outside, funtrace_pause_and_get_snapshot_starting_at_time}
use funtrace.Api.Sized.{IsNamedLog, starting_at_time-IsSized}
use funtrace.History.Followed.{Run-IsFollowed, unregistered-IsFollowed}
use funtrace.History.Snapshots.{
  All-counted, IsQuiet, recent, allocated, found, starting_at_time-Run,
}
use funtrace.History.{Logs, Run}

same_bytes : List ℕ → List ℕ → Bool
same_bytes [] [] = true
same_bytes [] (y ∷ ys) = false
same_bytes (x ∷ xs) [] = false
same_bytes (x ∷ xs) (y ∷ ys) = (x == y) && same_bytes xs ys

-- What a decoder finds in the TRACEBUF chunks.
unfoldable pub trace_contents : List Chunk → List (List ℕ)
unfolding same_bytes
trace_contents [] = []
trace_contents (c ∷ cs) =
    if same_bytes c.magic (magic_bytes tracebuf)
    then c.content ∷ trace_contents cs
    else trace_contents cs

trace_contents-thread_chunks :
    (ts : List EventBuffer) (cs : List Chunk)
    → trace_contents (thread_chunks ts ++ cs)
      ≡ map (λ b. entries_bytes b.buf) ts ++ trace_contents cs
unfolding trace_contents same_bytes
trace_contents-thread_chunks [] cs = refl
trace_contents-thread_chunks (t ∷ ts) cs =
    ap (λ r. entries_bytes t.buf ∷ r) (trace_contents-thread_chunks ts cs)

trace_contents-rest :
    (lines : List (List ℕ)) → trace_contents (ftrace_chunks lines ++ (chunk endtrace [] ∷ [])) ≡ []
unfolding trace_contents same_bytes
trace_contents-rest [] = refl
trace_contents-rest (l ∷ ls) = refl

trace_contents-snapshot_chunks :
    (cpu_freq : ℕ) (cmdline : List ℕ) (s : FuntraceSnapshot)
    → trace_contents (snapshot_chunks cpu_freq cmdline s)
      ≡ map (λ b. entries_bytes b.buf) s.thread_traces
unfolding trace_contents same_bytes
trace_contents-snapshot_chunks cpu_freq cmdline s =
    trace_contents-thread_chunks s.thread_traces _
    ∙ ap (λ r. map (λ b. entries_bytes b.buf) s.thread_traces ++ r)
        (trace_contents-rest s.ftrace_events)
    ∙ append-nil _

bytes-map :
    (ts : List EventBuffer)
    → map (λ b. entries_bytes b.buf) ts ≡ map entries_bytes (map (λ b. b.buf) ts)
bytes-map [] = refl
bytes-map (t ∷ ts) = ap (λ r. entries_bytes t.buf ∷ r) (bytes-map ts)

recent_bytes-map :
    (f : ℕ → List TraceEntry) (ps : List ℕ)
    → map entries_bytes (map f ps) ≡ map (λ p. entries_bytes (f p)) ps
recent_bytes-map f [] = refl
recent_bytes-map f (p ∷ ps) = ap (λ r. entries_bytes (f p) ∷ r) (recent_bytes-map f ps)

-- Let a program start and its threads make these steps in any order, each complete before the next:
-- register where they are not registered and allocation is defined, leave, collect old traces,
-- pause and resume tracing, read names, and calls of trace, which a registered thread makes, or one
-- whose trace is disabled, as before it registers and after its buffer was freed. Calls of a thread
-- that has left its buffer to the garbage collector, and calls that a pause comes in the middle of,
-- are not among them. Let the allocator give out aligned blocks that are not in use and overlap no
-- registered trace's buffer, new return addresses that are not registered, and the time stamps of a
-- buffer be at least 1 and not go down. In every state that is reached, if each registered trace
-- has a buffer and nothing in it is later than the pause, names have 16 bytes, and the sizes of the
-- texts fit 64 bits: a snapshot since a time not after the pause exists, and the file that
-- funtrace_write_snapshot makes of it reads back, by the format's description, as chunks. Those of
-- the magic TRACEBUF are, for each registered trace, in their order, the bytes of the entries from
-- that time on among the newest that were recorded while tracing was not paused, as many of these
-- as the buffer has places for.
pub funtrace_write_snapshot-Run :
    (getenv : Env) (host : Host) (mem : Memory) {s : State}
    → trace_global_state getenv host mem ≡ some s
    → {u : World} {logs : Logs} → Run (begin s) u logs
    → (o : Outside) (pause_time time : ℕ) → time ≤ pause_time
    → IsQuiet pause_time u.state logs
    → ((thread : ℕ) → length (o.getname thread) ≡ 16)
    → ((p : ℕ) → 1 ≤ count p u.state.thread_traces → length (u.state.traces p).id.name ≡ 16)
    → length o.procmaps < 2 ^ 64
    → length u.state.cmdline < 2 ^ 64
    → length (lines_text (o.ftrace time)) < 2 ^ 64
    → (snapshot : FuntraceSnapshot) × (s' : State) × (chunks : List Chunk)
      × (funtrace_pause_and_get_snapshot_starting_at_time o pause_time time u.state
          ≡ some (snapshot, s'))
      × (read_chunks
            (length chunks)
            (funtrace_write_snapshot u.state.cpu_freq u.state.cmdline snapshot)
          ≡ some chunks)
      × (trace_contents chunks
          ≡ map (λ p. entries_bytes (recent u.state logs time p)) u.state.thread_traces)
funtrace_write_snapshot-Run getenv host mem {s} start {u} {logs} run o pause_time time le quiet
      names named maps command lines =
    let (snapshot, s', e, bufs) =
      starting_at_time-Run getenv host mem start run o pause_time time le quiet in
    let (sized, events, text) =
      starting_at_time-IsSized o pause_time time u.state s' snapshot names le logged_names e in
    (
      snapshot,
      s',
      snapshot_chunks u.state.cpu_freq u.state.cmdline snapshot,
      e,
      read_chunks-funtrace_write_snapshot _ u.state.cpu_freq u.state.cmdline snapshot sized
          (omega (arith, maps, ap length text)) command
          (omega (arith, lines, ap (λ t. length (lines_text t)) events)) (omega arith),
      trace_contents-snapshot_chunks u.state.cpu_freq u.state.cmdline snapshot
          ∙ bytes-map snapshot.thread_traces
          ∙ ap (map entries_bytes) bufs
          ∙ recent_bytes-map (recent u.state logs time) u.state.thread_traces,
    )
  where
    logged_names :
        All (λ p. IsNamedLog pause_time u.state.memory (u.state.traces p)) u.state.thread_traces
    logged_names =
        let (balanced, ready, none) = begin-Good getenv host mem s start in
        let (balanced', ready', followed) =
          Run-IsFollowed run balanced ready (unregistered-IsFollowed s (λ b. []) none) in
        All-counted (λ p. IsNamedLog pause_time u.state.memory (u.state.traces p))
          u.state.thread_traces
          (λ p k. (
            allocated pause_time u.state logs ready' followed quiet p k,
            (found pause_time u.state logs ready' followed quiet p k).0,
            named p k,
          ))
