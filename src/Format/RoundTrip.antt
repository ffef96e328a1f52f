-- ===== src/Format/RoundTrip.antt =====
-- What the writers of funtrace.raw write, read back by the format's description.
use funtrace.Prelude.{
  ℕ, ◌+◌, ◌*◌, ◌^◌, ◌≤◌, ◌<◌, ◌≡◌, refl, sym, ap, ap₂, ◌∙◌, some, List, [], ◌∷◌, ◌++◌, arith,
  length, length-append, append_assoc, append-nil, All, All-append, take_all,
}
use funtrace.TraceBuffer.Layout.{TraceEntry, entry_size}
use funtrace.TraceBuffer.{ThreadId}
use funtrace.Snapshot.{EventBuffer, FuntraceSnapshot}
use funtrace.Format.Bytes.{le_bytes, length-le_bytes}
use funtrace.Format.Chunks.{
  Chunk, IsChunk, chunks_bytes, chunks_bytes-append, read_chunks, read_chunks-bytes,
}
use funtrace.Format.{
  File, Magic, procmaps, fun_trace, cmd_line, threadid, tracebuf, ftracetx, endtrace, magic_bytes,
  write_chunk, write_procmaps, write_funtrace, write_endtrace, thread_id_bytes, entry_bytes,
  entries_bytes, write_tracebufs, ftrace_size, write_lines, write_ftrace, funtrace_write_snapshot,
}

abbrev pub chunk : Magic → List ℕ → Chunk
chunk magic content = record { magic = magic_bytes magic; content = content }

-- The chunks of a thread: its id, and its entries.
abbrev pub thread_chunks : List EventBuffer → List Chunk
thread_chunks [] = []
thread_chunks (t ∷ ts) =
    chunk threadid (thread_id_bytes t.id) ∷ chunk tracebuf (entries_bytes t.buf) ∷ thread_chunks ts

-- Lines, each ended by a newline.
abbrev pub lines_text : List (List ℕ) → List ℕ
lines_text [] = []
lines_text (s ∷ ss) = s ++ (10 ∷ lines_text ss)

-- No chunk where there are no events.
abbrev pub ftrace_chunks : List (List ℕ) → List Chunk
ftrace_chunks [] = []
ftrace_chunks (s ∷ ss) = chunk ftracetx (lines_text (s ∷ ss)) ∷ []

-- The chunks of a snapshot, in the order of the file.
abbrev pub snapshot_chunks : ℕ → List ℕ → FuntraceSnapshot → List Chunk
snapshot_chunks cpu_freq cmdline s =
    chunk procmaps s.procmaps
    ∷ chunk fun_trace (le_bytes 8 cpu_freq)
    ∷ chunk cmd_line cmdline
    ∷ (thread_chunks s.thread_traces ++ (ftrace_chunks s.ftrace_events ++ (chunk endtrace [] ∷ [])))

-- Buffers as the snapshot functions make them: as many bytes as the entries take, fewer than 2^64,
-- and a name of 16 bytes.
abbrev pub IsSized : EventBuffer → Type 0
IsSized t = (t.bytes ≡ entry_size * length t.buf) × (t.bytes < 2 ^ 64) × (length t.id.name ≡ 16)

length-entries_bytes : (es : List TraceEntry) → length (entries_bytes es) ≡ entry_size * length es
length-entries_bytes [] = refl
length-entries_bytes (e ∷ es) = omega (
  arith,
  length-append (entry_bytes e) (entries_bytes es),
  length-append (le_bytes 8 e.func) (le_bytes 8 e.cycle),
  length-le_bytes 8 e.func,
  length-le_bytes 8 e.cycle,
  length-entries_bytes es,
)

length-thread_id_bytes : (id : ThreadId) → length (thread_id_bytes id) ≡ 16 + length id.name
length-thread_id_bytes id = omega (
  arith,
  length-append (le_bytes 8 id.pid) (le_bytes 8 id.tid ++ id.name),
  length-append (le_bytes 8 id.tid) id.name,
  length-le_bytes 8 id.pid,
  length-le_bytes 8 id.tid,
)

-- A chunk of all the data is written behind those that are there.
write_chunk-append :
    (magic : Magic) (chars : List ℕ) (bytes : ℕ) (cs : List Chunk)
    → bytes ≡ length chars
    → write_chunk magic chars bytes (chunks_bytes cs) ≡ chunks_bytes (cs ++ chunk magic chars ∷ [])
unfolding write_chunk
write_chunk-append magic chars bytes cs h =
    ap₂ (λ n d. chunks_bytes cs ++ (magic_bytes magic ++ (le_bytes 8 n ++ d))) h
      (take_all bytes chars (omega arith))
    ∙ ap (λ l. chunks_bytes cs ++ l) (sym (append-nil _))
    ∙ sym (chunks_bytes-append cs (chunk magic chars ∷ []))

write_tracebufs-append :
    (ts : List EventBuffer) (cs : List Chunk)
    → All IsSized ts
    → write_tracebufs ts (chunks_bytes cs) ≡ chunks_bytes (cs ++ thread_chunks ts)
unfolding write_tracebufs
write_tracebufs-append [] cs h = ap chunks_bytes (sym (append-nil cs))
write_tracebufs-append (t ∷ ts) cs h =
    ap (λ f. write_tracebufs ts (write_chunk tracebuf (entries_bytes t.buf) t.bytes f))
      (write_chunk-append threadid (thread_id_bytes t.id) 32 cs
        (omega (arith, length-thread_id_bytes t.id, h.0.2)))
    ∙ ap (write_tracebufs ts) (
        write_chunk-append tracebuf (entries_bytes t.buf) t.bytes (cs ++ first ∷ [])
          (omega (arith, length-entries_bytes t.buf, h.0.0)))
    ∙ write_tracebufs-append ts ((cs ++ first ∷ []) ++ second ∷ []) h.1
    ∙ ap chunks_bytes (
        append_assoc (cs ++ first ∷ []) (second ∷ []) (thread_chunks ts)
        ∙ append_assoc cs (first ∷ []) (second ∷ thread_chunks ts))
  where
    first : Chunk
    first = chunk threadid (thread_id_bytes t.id)

    second : Chunk
    second = chunk tracebuf (entries_bytes t.buf)

write_lines-append :
    (ss : List (List ℕ)) (file : File) → write_lines ss file ≡ file ++ lines_text ss
unfolding write_lines
write_lines-append [] file = sym (append-nil file)
write_lines-append (s ∷ ss) file =
    write_lines-append ss (file ++ (s ++ (10 ∷ [])))
    ∙ append_assoc file (s ++ (10 ∷ [])) (lines_text ss)
    ∙ ap (λ l. file ++ l) (append_assoc s (10 ∷ []) (lines_text ss))

ftrace_size-eq : (n : ℕ) (ss : List (List ℕ)) → ftrace_size n ss ≡ n + length (lines_text ss)
unfolding ftrace_size
ftrace_size-eq n [] = omega arith
ftrace_size-eq n (s ∷ ss) =
    omega (arith, ftrace_size-eq (n + (length s + 1)) ss, length-append s (10 ∷ lines_text ss))

write_ftrace-append :
    (events : List (List ℕ)) (cs : List Chunk)
    → write_ftrace events (chunks_bytes cs) ≡ chunks_bytes (cs ++ ftrace_chunks events)
unfolding write_ftrace
write_ftrace-append [] cs = ap chunks_bytes (sym (append-nil cs))
write_ftrace-append (s ∷ ss) cs =
    write_lines-append (s ∷ ss) _
    ∙ ap (λ n. (chunks_bytes cs ++ (magic_bytes ftracetx ++ le_bytes 8 n)) ++ text)
        (ftrace_size-eq 0 (s ∷ ss) ∙ omega arith)
    ∙ append_assoc (chunks_bytes cs) (magic_bytes ftracetx ++ size) text
    ∙ ap (λ l. chunks_bytes cs ++ l)
        (append_assoc (magic_bytes ftracetx) size text ∙ sym (append-nil _))
    ∙ sym (chunks_bytes-append cs (chunk ftracetx text ∷ []))
  where
    text : List ℕ
    text = lines_text (s ∷ ss)

    size : List ℕ
    size = le_bytes 8 (length text)

-- The file is the bytes of the snapshot's chunks.
funtrace_write_snapshot-chunks :
    (cpu_freq : ℕ) (cmdline : List ℕ) (s : FuntraceSnapshot)
    → All IsSized s.thread_traces
    → funtrace_write_snapshot cpu_freq cmdline s ≡ chunks_bytes (snapshot_chunks cpu_freq cmdline s)
unfolding funtrace_write_snapshot write_procmaps write_funtrace write_endtrace
funtrace_write_snapshot-chunks cpu_freq cmdline s h =
    ap (λ f. close (write_tracebufs threads (command (frequency f))))
      (write_chunk-append procmaps s.procmaps (length s.procmaps) [] refl)
    ∙ ap (λ f. close (write_tracebufs threads (command f)))
        (write_chunk-append fun_trace (le_bytes 8 cpu_freq) 8 (chunk procmaps s.procmaps ∷ [])
          (sym (length-le_bytes 8 cpu_freq)))
    ∙ ap (λ f. close (write_tracebufs threads f))
        (write_chunk-append cmd_line cmdline (length cmdline)
          (chunk procmaps s.procmaps ∷ chunk fun_trace (le_bytes 8 cpu_freq) ∷ []) refl)
    ∙ ap close (write_tracebufs-append threads head h)
    ∙ ap (write_chunk endtrace [] 0) (write_ftrace-append events (head ++ thread_chunks threads))
    ∙ write_chunk-append endtrace [] 0 ((head ++ thread_chunks threads) ++ ftrace_chunks events)
        refl
    ∙ ap chunks_bytes (
        append_assoc (head ++ thread_chunks threads) (ftrace_chunks events)
          (chunk endtrace [] ∷ []))
  where
    threads : List EventBuffer
    threads = s.thread_traces

    events : List (List ℕ)
    events = s.ftrace_events

    close : File → File
    close f = write_chunk endtrace [] 0 (write_ftrace events f)

    frequency : File → File
    frequency f = write_chunk fun_trace (le_bytes 8 cpu_freq) 8 f

    command : File → File
    command f = write_chunk cmd_line cmdline (length cmdline) f

    head : List Chunk
    head =
        chunk procmaps s.procmaps
        ∷ chunk fun_trace (le_bytes 8 cpu_freq)
        ∷ chunk cmd_line cmdline
        ∷ []

length-magic_bytes : (magic : Magic) → length (magic_bytes magic) ≡ 8
length-magic_bytes procmaps = refl
length-magic_bytes fun_trace = refl
length-magic_bytes cmd_line = refl
length-magic_bytes threadid = refl
length-magic_bytes tracebuf = refl
length-magic_bytes ftracetx = refl
length-magic_bytes endtrace = refl

chunk-IsChunk :
    (magic : Magic) (content : List ℕ) → length content < 2 ^ 64 → IsChunk (chunk magic content)
chunk-IsChunk magic content h = (length-magic_bytes magic, h)

thread_chunks-IsChunk : (ts : List EventBuffer) → All IsSized ts → All IsChunk (thread_chunks ts)
thread_chunks-IsChunk [] h = tt
thread_chunks-IsChunk (t ∷ ts) h = (
  chunk-IsChunk threadid _ (omega (arith, length-thread_id_bytes t.id, h.0.2)),
  (
    chunk-IsChunk tracebuf _ (omega (arith, length-entries_bytes t.buf, h.0.0, h.0.1)),
    thread_chunks-IsChunk ts h.1,
  ),
)

ftrace_chunks-IsChunk :
    (events : List (List ℕ))
    → length (lines_text events) < 2 ^ 64
    → All IsChunk (ftrace_chunks events)
ftrace_chunks-IsChunk [] h = tt
ftrace_chunks-IsChunk (s ∷ ss) h = (chunk-IsChunk ftracetx (lines_text (s ∷ ss)) h, tt)

-- Reading the file of a snapshot by the format's description gives back its chunks in order: the
-- memory map, the frequency, the command line, the id and the entries of each thread, the ftrace
-- lines if there are any, and the end mark. The conditions are that sizes fit 64 bits and that the
-- threads' buffers have as many bytes as their entries take, and names of 16 bytes.
pub read_chunks-funtrace_write_snapshot :
    (fuel cpu_freq : ℕ) (cmdline : List ℕ) (s : FuntraceSnapshot)
    → All IsSized s.thread_traces
    → length s.procmaps < 2 ^ 64
    → length cmdline < 2 ^ 64
    → length (lines_text s.ftrace_events) < 2 ^ 64
    → length (snapshot_chunks cpu_freq cmdline s) ≤ fuel
    → read_chunks fuel (funtrace_write_snapshot cpu_freq cmdline s)
      ≡ some (snapshot_chunks cpu_freq cmdline s)
read_chunks-funtrace_write_snapshot fuel cpu_freq cmdline s h maps command lines enough =
    ap (read_chunks fuel) (funtrace_write_snapshot-chunks cpu_freq cmdline s h)
    ∙ read_chunks-bytes fuel (snapshot_chunks cpu_freq cmdline s) enough (
      chunk-IsChunk procmaps s.procmaps maps,
      (frequency, (chunk-IsChunk cmd_line cmdline command, rest)),
    )
  where
    frequency : IsChunk (chunk fun_trace (le_bytes 8 cpu_freq))
    frequency = chunk-IsChunk fun_trace _ (omega (arith, length-le_bytes 8 cpu_freq))

    end : All IsChunk (chunk endtrace [] ∷ [])
    end = (chunk-IsChunk endtrace [] (omega arith), tt)

    rest : All IsChunk (
        thread_chunks s.thread_traces
        ++ (ftrace_chunks s.ftrace_events ++ (chunk endtrace [] ∷ [])))
    rest =
        All-append IsChunk (thread_chunks s.thread_traces) _
          (thread_chunks-IsChunk s.thread_traces h)
          (All-append IsChunk (ftrace_chunks s.ftrace_events) _
            (ftrace_chunks-IsChunk s.ftrace_events lines) end)
