-- ===== src/Api/Written.antt =====
-- The file that `funtrace_pause_and_write_current_snapshot` writes straight from the buffers.
use funtrace.Prelude.{
  ℕ, ◌^◌, ◌≤◌, ◌<◌, ◌≡◌, refl, ap₂, inl, inr, ◌==◌, Bool-cases, some, List, [], ◌∷◌, map, arith,
  All, length,
}
use funtrace.TraceBuffer.Layout.{Memory, length-entries_at}
use funtrace.TraceBuffer.Mask.{IsAllocated, slots, buf_size-eq, buf_size-lt}
use funtrace.TraceBuffer.{TraceData}
use funtrace.TraceBuffer
use funtrace.Registry.{State, pause_tracing}
use funtrace.Snapshot.{whole_buffer, straight_buffer}
use funtrace.Format.Chunks.{read_chunks}
use funtrace.Format.RoundTrip.{
  IsSized, lines_text, snapshot_chunks, read_chunks-funtrace_write_snapshot,
}
use funtrace.Format.{funtrace_write_snapshot}
use funtrace.Api.{
  Outside, funtrace_pause_and_get_snapshot, funtrace_pause_and_write_current_snapshot,
}
use funtrace.Api.Snapshots.{paused-keeps, IsAllocated-pause}

-- A well-formed buffer, and a name of 16 bytes.
abbrev pub IsNamed : TraceData → Type 0
IsNamed t = IsAllocated t × (length t.id.name ≡ 16)

whole_buffer-IsSized :
    (mem : Memory) (getname : ℕ → List ℕ) (t : TraceData)
    → ((thread : ℕ) → length (getname thread) ≡ 16)
    → IsNamed t
    → IsSized (whole_buffer mem getname t)
unfolding whole_buffer TraceBuffer.update_name
whole_buffer-IsSized mem getname t names (v, n) = (
  omega (arith, length-entries_at mem t.buf (slots t), buf_size-eq v),
  omega (arith, buf_size-lt v),
  ground (arith, names t.thread),
)

IsNamed-pause : (t : TraceData) → IsNamed t → IsNamed (TraceBuffer.pause_tracing t)
unfolding TraceBuffer.pause_tracing
IsNamed-pause t (v, n) = (IsAllocated-pause v, n)

whole_buffers-IsSized :
    (getname : ℕ → List ℕ) (s : State) (ps : List ℕ)
    → ((thread : ℕ) → length (getname thread) ≡ 16)
    → All (λ p. IsNamed (s.traces p)) ps
    → All IsSized (map (λ p. whole_buffer s.memory getname ((pause_tracing s).traces p)) ps)
whole_buffers-IsSized getname s [] names h = tt
whole_buffers-IsSized getname s (p ∷ ps) names h = (
  whole_buffer-IsSized s.memory getname ((pause_tracing s).traces p) names
      (paused-keeps IsNamed s p IsNamed-pause h.0),
  whole_buffers-IsSized getname s ps names h.1,
)

-- What is written straight from the traces is what a snapshot copies.
straight_buffer-whole_buffer :
    (mem : Memory) (getname : ℕ → List ℕ) (t : TraceData)
    → straight_buffer mem getname t ≡ whole_buffer mem getname t
unfolding straight_buffer whole_buffer TraceBuffer.update_name
straight_buffer-whole_buffer mem getname t = elim (Bool-cases (t.thread == 0)) [
  | inl e ↦ rw e refl
  | inr e ↦ rw e refl
]

straight_buffers-whole_buffers :
    (mem : Memory) (getname : ℕ → List ℕ) (traces : ℕ → TraceData) (ps : List ℕ)
    → map (λ p. straight_buffer mem getname (traces p)) ps
      ≡ map (λ p. whole_buffer mem getname (traces p)) ps
straight_buffers-whole_buffers mem getname traces [] = refl
straight_buffers-whole_buffers mem getname traces (p ∷ ps) =
    ap₂ ◌∷◌ (straight_buffer-whole_buffer mem getname (traces p))
      (straight_buffers-whole_buffers mem getname traces ps)

-- The file that is written straight from the buffers reads back, by the format's description, as
-- the chunks of the snapshot that `funtrace_pause_and_get_snapshot` takes in the same state, where
-- the registered traces have well-formed buffers and names of 16 bytes and the texts fit 64 bits.
pub read_chunks-funtrace_pause_and_write_current_snapshot :
    (fuel : ℕ) (o : Outside) (s : State)
    → ((thread : ℕ) → length (o.getname thread) ≡ 16)
    → All (λ p. IsNamed (s.traces p)) s.thread_traces
    → length o.procmaps < 2 ^ 64
    → length s.cmdline < 2 ^ 64
    → length (lines_text (o.ftrace 1)) < 2 ^ 64
    → length (snapshot_chunks s.cpu_freq s.cmdline (funtrace_pause_and_get_snapshot o s).0) ≤ fuel
    → read_chunks fuel (funtrace_pause_and_write_current_snapshot o s []).0
      ≡ some (snapshot_chunks s.cpu_freq s.cmdline (funtrace_pause_and_get_snapshot o s).0)
unfolding funtrace_pause_and_get_snapshot funtrace_pause_and_write_current_snapshot pause_tracing
    funtrace_write_snapshot
read_chunks-funtrace_pause_and_write_current_snapshot fuel o s names h maps command lines enough =
    rw (straight_buffers-whole_buffers s.memory o.getname (pause_tracing s).traces s.thread_traces)
      (read_chunks-funtrace_write_snapshot fuel s.cpu_freq s.cmdline
        (funtrace_pause_and_get_snapshot o s).0
        (whole_buffers-IsSized o.getname s s.thread_traces names h) maps command lines enough)
