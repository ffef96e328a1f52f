-- ===== src/Format.antt =====
-- The writers of funtrace.raw in funtrace.cpp. A file is the bytes written so far; each writer
-- appends to it.
pub mod Bytes
pub mod Chunks
pub mod RoundTrip
pub mod Procmaps
mod Tests
use funtrace.Prelude.{ℕ, zero, suc, ◌+◌, ◌*◌, List, [], ◌∷◌, ◌++◌, length, take}
use funtrace.TraceBuffer.Layout.{TraceEntry}
use funtrace.TraceBuffer.{ThreadId}
use funtrace.Snapshot.{EventBuffer, FuntraceSnapshot}
use Bytes.{le_bytes}

abbrev pub File : Type 0
File = List ℕ

-- The names of the chunks, of `MAGIC_LEN` bytes each.
pub data Magic : Type 0 where
  procmaps fun_trace cmd_line threadid tracebuf ftracetx endtrace : Magic

abbrev pub magic_bytes : Magic → List ℕ
magic_bytes procmaps = b'P' ∷ b'R' ∷ b'O' ∷ b'C' ∷ b'M' ∷ b'A' ∷ b'P' ∷ b'S' ∷ []
magic_bytes fun_trace = b'F' ∷ b'U' ∷ b'N' ∷ b'T' ∷ b'R' ∷ b'A' ∷ b'C' ∷ b'E' ∷ []
magic_bytes cmd_line = b'C' ∷ b'M' ∷ b'D' ∷ 32 ∷ b'L' ∷ b'I' ∷ b'N' ∷ b'E' ∷ []
magic_bytes threadid = b'T' ∷ b'H' ∷ b'R' ∷ b'E' ∷ b'A' ∷ b'D' ∷ b'I' ∷ b'D' ∷ []
magic_bytes tracebuf = b'T' ∷ b'R' ∷ b'A' ∷ b'C' ∷ b'E' ∷ b'B' ∷ b'U' ∷ b'F' ∷ []
magic_bytes ftracetx = b'F' ∷ b'T' ∷ b'R' ∷ b'A' ∷ b'C' ∷ b'E' ∷ b'T' ∷ b'X' ∷ []
magic_bytes endtrace = b'E' ∷ b'N' ∷ b'D' ∷ b'T' ∷ b'R' ∷ b'A' ∷ b'C' ∷ b'E' ∷ []

-- The bytes are the first `bytes` of the data.
unfoldable pub write_chunk : Magic → List ℕ → ℕ → File → File
write_chunk magic chars bytes file =
    file ++ (magic_bytes magic ++ (le_bytes 8 bytes ++ take bytes chars))

unfoldable pub write_procmaps : List ℕ → File → File
write_procmaps s file = write_chunk procmaps s (length s) file

unfoldable pub write_funtrace : ℕ → List ℕ → File → File
write_funtrace cpu_freq cmdline file =
    write_chunk cmd_line cmdline (length cmdline)
      (write_chunk fun_trace (le_bytes 8 cpu_freq) 8 file)

unfoldable pub write_endtrace : File → File
write_endtrace file = write_chunk endtrace [] 0 file

-- `sizeof(thread_id)`
abbrev pub thread_id_size : ℕ
thread_id_size = 32

-- The bytes of a `thread_id`, and of a `trace_entry`.
abbrev pub thread_id_bytes : ThreadId → List ℕ
thread_id_bytes id = le_bytes 8 id.pid ++ (le_bytes 8 id.tid ++ id.name)

abbrev pub entry_bytes : TraceEntry → List ℕ
entry_bytes e = le_bytes 8 e.func ++ le_bytes 8 e.cycle

abbrev pub entries_bytes : List TraceEntry → List ℕ
entries_bytes [] = []
entries_bytes (e ∷ es) = entry_bytes e ++ entries_bytes es

unfoldable pub write_tracebufs : List EventBuffer → File → File
write_tracebufs [] file = file
write_tracebufs (t ∷ ts) file = write_tracebufs ts (
    write_chunk tracebuf (entries_bytes t.buf) t.bytes
      (write_chunk threadid (thread_id_bytes t.id) thread_id_size file))

-- The loop that sums the sizes, and the one that writes the lines.
unfoldable pub ftrace_size : ℕ → List (List ℕ) → ℕ
ftrace_size size [] = size
ftrace_size size (s ∷ ss) = ftrace_size (size + (length s + 1)) ss

unfoldable pub write_lines : List (List ℕ) → File → File
write_lines [] file = file
write_lines (s ∷ ss) file = write_lines ss (file ++ (s ++ (10 ∷ [])))

unfoldable pub write_ftrace : List (List ℕ) → File → File
write_ftrace [] file = file
write_ftrace (s ∷ ss) file =
    let events = s ∷ ss in
    write_lines events (file ++ (magic_bytes ftracetx ++ le_bytes 8 (ftrace_size 0 events)))

-- The writes of `funtrace_write_snapshot`, into a file that holds nothing yet.
unfoldable pub funtrace_write_snapshot : ℕ → List ℕ → FuntraceSnapshot → File
funtrace_write_snapshot cpu_freq cmdline snapshot = write_endtrace (
    write_ftrace snapshot.ftrace_events (
      write_tracebufs snapshot.thread_traces
        (write_funtrace cpu_freq cmdline (write_procmaps snapshot.procmaps []))))
