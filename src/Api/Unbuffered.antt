-- ===== src/Api/Unbuffered.antt =====
-- A registered thread with no buffer, which FUNTRACE_LOG_BUF_SIZE=0 gives each thread, under the
-- snapshots since a time.
use funtrace.Prelude.{
  ℕ, ◌≤◌, ◌≡◌, ◌⊎◌, ◌*◌, ◌^◌, refl, ap, ◌∙◌, Option, none, some, List, [], ◌∷◌, ◌++◌, map, arith,
  inl, inr, ◌==◌, ◌>>=◌, ℤ, pos, Bool-cases,
}
use funtrace.Config.{Env}
use funtrace.TraceBuffer.{TraceData, MemAlign, no_buffer}
use funtrace.TraceBuffer.Allocate.{requested, allocate-no_buffer}
use funtrace.TraceBuffer
use funtrace.TraceBuffer.Layout.{Memory}
use funtrace.Registry.Pointers.{count, count-append}
use funtrace.Registry.{
  State, Thread, pause_tracing, resume_tracing, update, registered, register_this_thread,
}
use funtrace.Snapshot.Exact.{events_since_no_buffer}
use funtrace.Snapshot.{EventBuffer, events_since, all_since}
use funtrace.Api.Snapshots.{paused-keeps}
use funtrace.Api.{Outside, renamed, funtrace_pause_and_get_snapshot_starting_at_time}

bind_none : (o : Option EventBuffer) → (o >>= λ b. none >>= λ bs. some (b ∷ bs)) ≡ none
bind_none none = refl
bind_none (some b) = refl

all_since_no_buffer :
    (mem : Memory) (getname : ℕ → List ℕ) (time pause_time : ℕ) (traces : ℕ → TraceData) (p : ℕ)
    (ps : List ℕ)
    → 1 ≤ count p ps
    → (traces p).buf_size ≡ 0
    → all_since mem getname time pause_time (map traces ps) ≡ none
unfolding all_since
all_since_no_buffer mem getname time pause_time traces p [] h e = absurd (omega arith)
all_since_no_buffer mem getname time pause_time traces p (q ∷ ps) h e = elim (Bool-cases (q == p)) [
  | inl same ↦
      let eq : q ≡ p = ground arith in
      ap
        (λ o.
          o >>= λ b. all_since mem getname time pause_time (map traces ps) >>= λ bs. some (b ∷ bs))
        (events_since_no_buffer mem getname time pause_time (traces q)
          (ap (λ x. (traces x).buf_size) eq ∙ e))
  | inr other ↦
      ap
        (λ r.
          events_since mem getname time pause_time (traces q) >>= λ b. r >>= λ bs. some (b ∷ bs))
        (all_since_no_buffer mem getname time pause_time traces p ps (ground arith) e)
      ∙ bind_none (events_since mem getname time pause_time (traces q))
]

-- One registered thread with no buffer is enough for a snapshot since a time to read out of bounds.
starting_at_time_no_buffer :
    (o : Outside) (pause_time time p : ℕ) (s : State)
    → 1 ≤ count p s.thread_traces
    → (s.traces p).buf_size ≡ 0
    → funtrace_pause_and_get_snapshot_starting_at_time o pause_time time s ≡ none
unfolding funtrace_pause_and_get_snapshot_starting_at_time TraceBuffer.pause_tracing
starting_at_time_no_buffer o pause_time time p s h e =
    ap
      (λ r. r >>= λ buffers. some (
        record { thread_traces = buffers; ftrace_events = o.ftrace time; procmaps = o.procmaps },
        resume_tracing (renamed o.getname (pause_tracing s)),
      ))
      (all_since_no_buffer s.memory o.getname time pause_time (pause_tracing s).traces p
        s.thread_traces h (paused-keeps (λ t. t.buf_size ≡ 0) s p (λ t k. k) e))

-- Where no size is asked for, or the allocator has no block, a thread registers with no buffer, and
-- every snapshot since a time that is taken while it is registered reads out of bounds.
pub register_this_thread-starting_at_time :
    (getenv : Env) (memalign : MemAlign) (thread : Thread) (n : ℤ) (log : ℕ) (s : State)
    → requested getenv n ≡ pos log
    → log ≤ 30
    → (log ≡ 0) ⊎ (memalign (2 ^ log * 2) (2 ^ log) ≡ none)
    → (s' : State) × (register_this_thread getenv memalign thread n s ≡ some s')
      × ((o : Outside) (pause_time time : ℕ)
          → funtrace_pause_and_get_snapshot_starting_at_time o pause_time time s' ≡ none)
unfolding register_this_thread TraceBuffer.pause_tracing
register_this_thread-starting_at_time getenv memalign thread n log s r k h = (
  s',
  ap next (allocate-no_buffer getenv memalign n (s.memory, s.traces thread.self) log r k h),
  λ o pause_time time. starting_at_time_no_buffer o pause_time time thread.self s' there unbuffered,
)
  where
    next : Option (Memory × TraceData) → Option State
    next x = x >>= λ r. some (record s {
      memory = r.0;
      traces = update thread.self (registered s thread r.1) s.traces;
      thread_traces = s.thread_traces ++ thread.self ∷ [];
    })

    s' : State
    s' = record s {
      traces = update thread.self (registered s thread (no_buffer (s.traces thread.self))) s.traces;
      thread_traces = s.thread_traces ++ thread.self ∷ [];
    }

    there : 1 ≤ count thread.self s'.thread_traces
    there = ground (arith, count-append thread.self s.thread_traces (thread.self ∷ []))

    unbuffered : (s'.traces thread.self).buf_size ≡ 0
    unbuffered = ground arith
