-- ===== src/History/Snapshots.antt =====
-- What a snapshot shows of a run.
use funtrace.Prelude.{
  ℕ, ◌≤◌, ◌≡◌, refl, ap, ap₂, ◌∙◌, some, List, [], ◌∷◌, map, arith, leb, filter, All,
}
use funtrace.Config.{Env}
use funtrace.TraceBuffer.Layout.{TraceEntry, Memory}
use funtrace.TraceBuffer.Mask.{IsAllocated}
use funtrace.Snapshot.Select.{in_window}
use funtrace.Snapshot.Order.{IsEarly}
use funtrace.Snapshot.Exact.{IsLogged, valid_entries}
use funtrace.Snapshot.Logged.{kept, Holds-IsLogged, filter-kept}
use funtrace.Snapshot.{FuntraceSnapshot}
use funtrace.Registry.Pointers.{count}
use funtrace.Registry.Switch.{AllReady}
use funtrace.Registry.System.{World}
use funtrace.Registry.{State}
use funtrace.Registry.Reachable.{begin, begin-Good}
use funtrace.Registry.Start.{Host, trace_global_state}
use funtrace.Api.{Outside, funtrace_pause_and_get_snapshot_starting_at_time}
use funtrace.Api.Snapshots.{starting_at_time_exact}
use funtrace.History.Kept.{IsFollowed}
use funtrace.History.Called.{IsReady-IsAllocated}
use funtrace.History.Followed.{Run-IsFollowed, unregistered-IsFollowed}
use funtrace.History.{Logs, Run}

-- What holds of all that are counted.
pub All-counted : (P : ℕ → Type 0) (ps : List ℕ) → ((p : ℕ) → 1 ≤ count p ps → P p) → All P ps
All-counted P [] h = tt
All-counted P (p ∷ ps) h = (h p (ground arith), All-counted P ps (λ q k. h q (omega (arith, k))))

map-counted :
    (f g : ℕ → List TraceEntry) (ps : List ℕ)
    → ((p : ℕ) → 1 ≤ count p ps → f p ≡ g p)
    → map f ps ≡ map g ps
map-counted f g [] h = refl
map-counted f g (p ∷ ps) h =
    ap₂ ◌∷◌ (h p (ground arith)) (map-counted f g ps (λ q k. h q (omega (arith, k))))

-- The newest entries that a trace's thread recorded, as many as fit, from a time on.
abbrev pub recent : State → Logs → ℕ → ℕ → List TraceEntry
recent s logs time p = filter (λ e. leb time e.cycle) (kept (s.traces p) (logs (s.traces p).buf))

-- Each registered trace has a buffer, and nothing was recorded in it after the pause.
abbrev pub IsQuiet : ℕ → State → Logs → Type 0
IsQuiet pause_time s logs =
    (p : ℕ)
    → 1 ≤ count p s.thread_traces
    → (1 ≤ (s.traces p).buf_size) × All (λ e. e.cycle ≤ pause_time) (logs (s.traces p).buf)

pub both-IsEarly :
    (pause_time : ℕ) (es : List TraceEntry)
    → All (λ e. 1 ≤ e.cycle) es
    → All (λ e. e.cycle ≤ pause_time) es
    → All (IsEarly pause_time) es
both-IsEarly pause_time [] a b = tt
both-IsEarly pause_time (e ∷ es) a b = ((a.0, b.0), both-IsEarly pause_time es a.1 b.1)

module _ (pause_time : ℕ) (s : State) (logs : Logs) (ready : AllReady s) (h : IsFollowed s logs)
    (quiet : IsQuiet pause_time s logs) where
  pub allocated : (p : ℕ) → 1 ≤ count p s.thread_traces → IsAllocated (s.traces p)
  allocated p k = IsReady-IsAllocated s.tracing_paused (s.traces p) (ready p k) (quiet p k).0

  pub found :
      (p : ℕ)
      → 1 ≤ count p s.thread_traces
      → IsLogged pause_time (s.memory, s.traces p)
        × (valid_entries (s.memory, s.traces p) ≡ kept (s.traces p) (logs (s.traces p).buf))
  found p k =
      let (holds, order, written) = h.follows p k (quiet p k).0 in
      Holds-IsLogged s.memory (allocated p k) pause_time (logs (s.traces p).buf) holds order
        (both-IsEarly pause_time (logs (s.traces p).buf) written (quiet p k).1)

  selected :
      (time p : ℕ)
      → 1 ≤ count p s.thread_traces
      → filter (in_window time pause_time) (valid_entries (s.memory, s.traces p))
        ≡ recent s logs time p
  selected time p k =
      let (holds, order, written) = h.follows p k (quiet p k).0 in
      ap (filter (in_window time pause_time)) (found p k).1
      ∙ filter-kept s.memory (allocated p k) pause_time (logs (s.traces p).buf) holds order
          (both-IsEarly pause_time (logs (s.traces p).buf) written (quiet p k).1) time

  starting_at_time-recent :
      (o : Outside) (time : ℕ)
      → time ≤ pause_time
      → (snapshot : FuntraceSnapshot) × (s' : State)
        × (funtrace_pause_and_get_snapshot_starting_at_time o pause_time time s
            ≡ some (snapshot, s'))
        × (map (λ b. b.buf) snapshot.thread_traces ≡ map (recent s logs time) s.thread_traces)
  starting_at_time-recent o time le =
      let (snapshot, s', e, bufs) = starting_at_time_exact o pause_time time s le (
        All-counted (λ p. IsAllocated (s.traces p) × IsLogged pause_time (s.memory, s.traces p))
          s.thread_traces (λ p k. (allocated p k, (found p k).0))) in
      (
        snapshot,
        s',
        e,
        bufs
            ∙ map-counted
                (λ p. filter (in_window time pause_time) (valid_entries (s.memory, s.traces p)))
                (recent s logs time) s.thread_traces (selected time),
      )

-- Let a program start and its threads make these steps in any order, each complete before the next:
-- register where they are not registered and allocation is defined, leave, collect old traces,
-- pause and resume tracing, read names, and calls of trace, which a registered thread makes, or one
-- whose trace is disabled, as before it registers and after its buffer was freed. Calls of a thread
-- that has left its buffer to the garbage collector, and calls that a pause comes in the middle of,
-- are not among them. Let the allocator give out aligned blocks that are not in use and overlap no
-- registered trace's buffer, new return addresses that are not registered, and the time stamps of a
-- buffer be at least 1 and not go down. In every state that is reached, if each registered trace
-- has a buffer and nothing in it is later than the pause, a snapshot since a time not after the
-- pause exists. For each registered trace, in their order, it holds exactly the entries from that
-- time on among the newest that were recorded while tracing was not paused, as many of these as the
-- buffer has places for, from the oldest to the newest: none is lost, repeated, out of place or
-- another thread's.
pub starting_at_time-Run :
    (getenv : Env) (host : Host) (mem : Memory) {s : State}
    → trace_global_state getenv host mem ≡ some s
    → {u : World} {logs : Logs} → Run (begin s) u logs
    → (o : Outside) (pause_time time : ℕ) → time ≤ pause_time
    → IsQuiet pause_time u.state logs
    → (snapshot : FuntraceSnapshot) × (s' : State)
      × (funtrace_pause_and_get_snapshot_starting_at_time o pause_time time u.state
          ≡ some (snapshot, s'))
      × (map (λ b. b.buf) snapshot.thread_traces
          ≡ map (recent u.state logs time) u.state.thread_traces)
starting_at_time-Run getenv host mem {s} start {u} {logs} run o pause_time time le quiet =
    let (balanced, ready, none) = begin-Good getenv host mem s start in
    let (balanced', ready', followed) =
      Run-IsFollowed run balanced ready (unregistered-IsFollowed s (λ b. []) none) in
    starting_at_time-recent pause_time u.state logs ready' followed quiet o time le
