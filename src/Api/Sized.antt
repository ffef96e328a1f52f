-- ===== src/Api/Sized.antt =====
-- The sizes and the names of the buffers in a snapshot since a time.
use funtrace.Prelude.{
  ℕ, ◌≤◌, ◌≡◌, refl, ap, ap₂, sym, ◌∙◌, inl, inr, Bool, some, List, [], ◌∷◌, map, arith, filter,
  All, length, length-append, length-take, length-drop, Bool-cases, ◌>>=◌, subst,
}
use mathlib.Core.Option.{some-injective}
use funtrace.TraceBuffer.Layout.{TraceEntry, Memory, entries_at, length-entries_at}
use funtrace.TraceBuffer.Mask.{IsAllocated, slots, index, buf_size-eq, buf_size-lt}
use funtrace.TraceBuffer.{TraceData, update_name}
use funtrace.TraceBuffer
use funtrace.Registry.{State, pause_tracing, resume_tracing}
use funtrace.Snapshot.Exact.{
  IsLogged, valid_entries, is_first_round, newer, older, events_since_exact,
}
use funtrace.Snapshot.Select.{in_window}
use funtrace.Snapshot.{EventBuffer, FuntraceSnapshot, events_since, copied, all_since}
use funtrace.Format.RoundTrip.{IsSized}
use funtrace.Api.Snapshots.{paused-keeps, IsAllocated-pause}
use funtrace.Api.{Outside, renamed, funtrace_pause_and_get_snapshot_starting_at_time}

length-filter : (f : TraceEntry → Bool) (es : List TraceEntry) → length (filter f es) ≤ length es
length-filter f [] = omega arith
length-filter f (e ∷ es) = ground (arith, length-filter f es)

length-valid_entries : (mem : Memory) (t : TraceData) → length (valid_entries (mem, t)) ≤ slots t
length-valid_entries mem t = elim (Bool-cases (is_first_round (mem, t))) [
  | inl e ↦ rw e (omega (arith, all, length-take (index t) entries))
  | inr e ↦ rw e (
      omega (
        arith,
        all,
        length-take (index t) entries,
        length-drop (index t) entries,
        length-append (older (mem, t)) (newer (mem, t)),
      ))
]
  where
    entries : List TraceEntry
    entries = entries_at mem t.buf (slots t)

    all : length entries ≡ slots t
    all = length-entries_at mem t.buf (slots t)

-- The name that a round of the loop leaves in the buffer.
events_since-name :
    (mem : Memory) (getname : ℕ → List ℕ) (time pause_time : ℕ) (t : TraceData) (b : EventBuffer)
    → events_since mem getname time pause_time t ≡ some b
    → b.id ≡ (update_name getname t).id
unfolding events_since copied
events_since-name mem getname time pause_time t b e = ground (arith, e)

-- A trace whose events are in order, with a name of 16 bytes.
abbrev pub IsNamedLog : ℕ → Memory → TraceData → Type 0
IsNamedLog pause_time mem t = IsAllocated t × IsLogged pause_time (mem, t) × (length t.id.name ≡ 16)

IsNamedLog-pause :
    (pause_time : ℕ) (mem : Memory) (t : TraceData)
    → IsNamedLog pause_time mem t
    → IsNamedLog pause_time mem (TraceBuffer.pause_tracing t)
unfolding TraceBuffer.pause_tracing
IsNamedLog-pause pause_time mem t (v, l, n) = (IsAllocated-pause v, l, n)

module _ (getname : ℕ → List ℕ) (names : (thread : ℕ) → length (getname thread) ≡ 16)
    (time pause_time : ℕ) (le : time ≤ pause_time) where
  name-length :
      (t : TraceData) → length t.id.name ≡ 16 → length (update_name getname t).id.name ≡ 16
  unfolding update_name
  name-length t n = ground (arith, n, names t.thread)

  events_since-IsSized :
      (mem : Memory) (t : TraceData)
      → IsNamedLog pause_time mem t
      → (b : EventBuffer) × (events_since mem getname time pause_time t ≡ some b) × IsSized b
  events_since-IsSized mem t (v, l, n) =
      let (b, e, es, size) = events_since_exact mem getname time pause_time v l le in
      let shorter = length-filter (in_window time pause_time) (valid_entries (mem, t)) in
      (
        b,
        e,
        (
          size,
          omega (
            arith,
            size,
            ap length es,
            shorter,
            length-valid_entries mem t,
            buf_size-eq v,
            buf_size-lt v,
          ),
          ap (λ id. length id.name) (events_since-name mem getname time pause_time t b e)
              ∙ name-length t n,
        ),
      )

  all_since-IsSized :
      (s : State) (ps : List ℕ)
      → All (λ p. IsNamedLog pause_time s.memory (s.traces p)) ps
      → (bs : List EventBuffer) × (all_since s.memory getname time pause_time
            (map (pause_tracing s).traces ps)
          ≡ some bs)
        × All IsSized bs
  unfolding all_since
  all_since-IsSized s [] h = ([], refl, tt)
  all_since-IsSized s (p ∷ ps) h =
      let ready =
        paused-keeps (IsNamedLog pause_time s.memory) s p (IsNamedLog-pause pause_time s.memory)
          h.0 in
      let (b, e, sized) = events_since-IsSized s.memory ((pause_tracing s).traces p) ready in
      let (bs, f, all) = all_since-IsSized s ps h.1 in
      (b ∷ bs, ap₂ (λ x y. x >>= λ b. y >>= λ bs. some (b ∷ bs)) e f, (sized, all))

-- What a snapshot since a time is made of.
pub starting_at_time-IsSized :
    (o : Outside) (pause_time time : ℕ) (s s' : State) (snapshot : FuntraceSnapshot)
    → ((thread : ℕ) → length (o.getname thread) ≡ 16)
    → time ≤ pause_time
    → All (λ p. IsNamedLog pause_time s.memory (s.traces p)) s.thread_traces
    → funtrace_pause_and_get_snapshot_starting_at_time o pause_time time s ≡ some (snapshot, s')
    → All IsSized snapshot.thread_traces
      × (snapshot.ftrace_events ≡ o.ftrace time)
      × (snapshot.procmaps ≡ o.procmaps)
unfolding funtrace_pause_and_get_snapshot_starting_at_time
starting_at_time-IsSized o pause_time time s s' snapshot names le h e = (
  subst (All IsSized) (sym (ap (λ x. x.0.thread_traces) same)) sized,
  ap (λ x. x.0.ftrace_events) same,
  ap (λ x. x.0.procmaps) same,
)
  where
    bs : List EventBuffer
    bs = (all_since-IsSized o.getname names time pause_time le s s.thread_traces h).0

    sized : All IsSized bs
    sized = (all_since-IsSized o.getname names time pause_time le s s.thread_traces h).2

    taken : List EventBuffer → FuntraceSnapshot × State
    taken buffers = (
      record { thread_traces = buffers; ftrace_events = o.ftrace time; procmaps = o.procmaps },
      resume_tracing (renamed o.getname (pause_tracing s)),
    )

    same : (snapshot, s') ≡ taken bs
    same = some-injective _ _ (
        sym e
        ∙ ap (λ x. x >>= λ buffers. some (taken buffers))
            (all_since-IsSized o.getname names time pause_time le s s.thread_traces h).1)
