-- ===== src/Api/Snapshots.antt =====
-- The snapshots of all registered traces.
use funtrace.Prelude.{
  ℕ, ◌≤◌, ◌≡◌, refl, sym, ap, ap₂, ◌∙◌, false, some, List, [], ◌∷◌, map, arith, filter, All, lognot,
  ◌==◌, ◌>>=◌, Bool-cases, inl, inr, subst,
}
use funtrace.TraceBuffer.Layout.{TraceEntry, Memory}
use funtrace.TraceBuffer.Mask.{IsAllocated}
use funtrace.TraceBuffer.{TraceData}
use funtrace.TraceBuffer
use funtrace.Registry.Pointers.{count}
use funtrace.Registry.Pause.{
  modify_all_idempotent, pause_tracing-traces, resume_tracing-traces, update_name-traces,
}
use funtrace.Registry.{State, pause_tracing, resume_tracing}
use funtrace.Snapshot.Select.{in_window}
use funtrace.Snapshot.Exact.{IsLogged, valid_entries, events_since_exact}
use funtrace.Snapshot.{EventBuffer, FuntraceSnapshot, all_since}
use funtrace.Api.{
  Outside, renamed, funtrace_pause_and_get_snapshot,
  funtrace_pause_and_get_snapshot_starting_at_time,
}

-- What holds of a trace whether or not it is paused holds of it once all are.
pub paused-keeps :
    (P : TraceData → Type 0) (s : State) (p : ℕ)
    → ((t : TraceData) → P t → P (TraceBuffer.pause_tracing t))
    → P (s.traces p)
    → P ((pause_tracing s).traces p)
unfolding pause_tracing TraceBuffer.pause_tracing
paused-keeps P s p keep h =
    subst P
      (sym (modify_all_idempotent TraceBuffer.pause_tracing s.thread_traces s.traces p (λ t. refl)))
      (elim (Bool-cases (count p s.thread_traces == 0)) [
        | inl e ↦ rw e h
        | inr e ↦ rw e (keep (s.traces p) h)
      ])

-- Pausing leaves a buffer well-formed.
pub IsAllocated-pause : {t : TraceData} → IsAllocated t → IsAllocated (TraceBuffer.pause_tracing t)
unfolding TraceBuffer.pause_tracing
IsAllocated-pause v = record {
  log = v.log;
  log_min = v.log_min;
  log_max = v.log_max;
  size = v.size;
  base = v.base;
  aligned = v.aligned;
  not_null = v.not_null;
  in_space = v.in_space;
  at_entry = v.at_entry;
  in_buffer = v.in_buffer;
}

-- A buffer whose events are in order, and which written entries it has.
abbrev IsReady : ℕ → Memory → List TraceEntry → TraceData → Type 0
IsReady pause_time mem written t =
    IsAllocated t × IsLogged pause_time (mem, t) × (valid_entries (mem, t) ≡ written)

IsReady-pause :
    (pause_time : ℕ) (mem : Memory) (written : List TraceEntry) (t : TraceData)
    → IsReady pause_time mem written t
    → IsReady pause_time mem written (TraceBuffer.pause_tracing t)
unfolding TraceBuffer.pause_tracing
IsReady-pause pause_time mem written t (v, l, e) = (IsAllocated-pause v, l, e)

module _ (getname : ℕ → List ℕ) (time pause_time : ℕ) (le : time ≤ pause_time) (s : State) where
  -- The events that are asked for of a registered trace.
  abbrev pub wanted : ℕ → List TraceEntry
  wanted p = filter (in_window time pause_time) (valid_entries (s.memory, s.traces p))

  all_since-exact :
      (ps : List ℕ)
      → All (λ p. IsAllocated (s.traces p) × IsLogged pause_time (s.memory, s.traces p)) ps
      → (bs : List EventBuffer) × (all_since s.memory getname time pause_time
            (map (pause_tracing s).traces ps)
          ≡ some bs)
        × (map (λ b. b.buf) bs ≡ map wanted ps)
  unfolding all_since
  all_since-exact [] h = ([], refl, refl)
  all_since-exact (p ∷ ps) h =
      let ready =
        paused-keeps (IsReady pause_time s.memory (valid_entries (s.memory, s.traces p))) s p
          (IsReady-pause pause_time s.memory (valid_entries (s.memory, s.traces p)))
          (h.0.0, h.0.1, refl) in
      let (b, e, es, n) = events_since_exact s.memory getname time pause_time ready.0 ready.1 le in
      let (bs, f, fs) = all_since-exact ps h.1 in
      (
        b ∷ bs,
        ap₂ (λ x y. x >>= λ b. y >>= λ bs. some (b ∷ bs)) e f,
        ap₂ ◌∷◌ (es ∙ ap (filter (in_window time pause_time)) ready.2) fs,
      )

-- Where every registered trace has a well-formed buffer in the order that traced threads leave
-- behind, a snapshot since a time not after the pause exists, and for each registered trace, in
-- their order, it holds exactly the written entries from that time on and up to the pause.
pub starting_at_time_exact :
    (o : Outside) (pause_time time : ℕ) (s : State)
    → time ≤ pause_time
    → All
        (λ p. IsAllocated (s.traces p) × IsLogged pause_time (s.memory, s.traces p))
        s.thread_traces
    → (snapshot : FuntraceSnapshot) × (s' : State)
      × (funtrace_pause_and_get_snapshot_starting_at_time o pause_time time s ≡ some (snapshot, s'))
      × (map (λ b. b.buf) snapshot.thread_traces
          ≡ map
              (λ p. filter (in_window time pause_time) (valid_entries (s.memory, s.traces p)))
              s.thread_traces)
unfolding funtrace_pause_and_get_snapshot_starting_at_time
starting_at_time_exact o pause_time time s le h =
    let (bs, e, es) = all_since-exact o.getname time pause_time le s s.thread_traces h in
    (
      record { thread_traces = bs; ftrace_events = o.ftrace time; procmaps = o.procmaps },
      resume_tracing (renamed o.getname (pause_tracing s)),
      ap
          (λ r. r >>= λ buffers. some (
            record {
              thread_traces = buffers;
              ftrace_events = o.ftrace time;
              procmaps = o.procmaps;
            },
            resume_tracing (renamed o.getname (pause_tracing s)),
          ))
          e,
      es,
    )

-- What a snapshot leaves of a registered trace.
after_snapshot :
    (getname : ℕ → List ℕ) (s : State) (p : ℕ)
    → 1 ≤ count p s.thread_traces
    → (resume_tracing (renamed getname (pause_tracing s))).traces p
      ≡ TraceBuffer.resume_tracing
          (TraceBuffer.update_name getname (TraceBuffer.pause_tracing (s.traces p)))
unfolding pause_tracing
after_snapshot getname s p h =
    resume_tracing-traces (renamed getname (pause_tracing s)) p h
    ∙ ap TraceBuffer.resume_tracing (
        update_name-traces (pause_tracing s) p h getname
        ∙ ap (TraceBuffer.update_name getname) (pause_tracing-traces s p h))

snapshot_enables :
    (getname : ℕ → List ℕ) (t : TraceData)
    → let t' =
        TraceBuffer.resume_tracing
          (TraceBuffer.update_name getname (TraceBuffer.pause_tracing t)) in
      (t'.wraparound_mask ≡ lognot t.buf_size)
      × (t'.pos ≡ t.pos)
      × (t'.buf ≡ t.buf)
      × (t'.buf_size ≡ t.buf_size)
unfolding TraceBuffer.resume_tracing TraceBuffer.update_name TraceBuffer.pause_tracing
snapshot_enables getname t = ground arith

-- After a snapshot tracing is not paused, whether or not it was disabled before: each registered
-- trace has the mask that enables it, and keeps its position, its buffer and its size.
pub get_snapshot_enables :
    (o : Outside) (s : State) (p : ℕ)
    → 1 ≤ count p s.thread_traces
    → let (snapshot, s') = funtrace_pause_and_get_snapshot o s in
      (s'.tracing_paused ≡ false)
      × (((s'.traces p).wraparound_mask ≡ lognot (s.traces p).buf_size)
          × ((s'.traces p).pos ≡ (s.traces p).pos)
          × ((s'.traces p).buf ≡ (s.traces p).buf)
          × ((s'.traces p).buf_size ≡ (s.traces p).buf_size))
unfolding funtrace_pause_and_get_snapshot
get_snapshot_enables o s p h =
    (unpaused, rw (after_snapshot o.getname s p h) (snapshot_enables o.getname (s.traces p)))
  where
    unpaused : (resume_tracing (renamed o.getname (pause_tracing s))).tracing_paused ≡ false
    unpaused = unfold resume_tracing in refl
