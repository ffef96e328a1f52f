-- ===== src/Format/Tests.antt =====
-- The file of a snapshot of one thread, and the theorem at it.
use funtrace.Format.Procmaps.{get_procmaps, map_lines, map_line, hex_onto}
use funtrace.Prelude.{◌≡◌, refl, [], ◌∷◌, some, arith, length, replicate}
use funtrace.Snapshot.{FuntraceSnapshot}
use funtrace.Format.Bytes.{le_bytes}
use funtrace.Format.Chunks.{read_chunks}
use funtrace.Format.RoundTrip.{snapshot_chunks, read_chunks-funtrace_write_snapshot}
use funtrace.Format.{
  write_chunk, write_procmaps, write_funtrace, write_endtrace, write_tracebufs, write_ftrace,
  write_lines, ftrace_size, funtrace_write_snapshot,
}

abbrev one_thread : FuntraceSnapshot
one_thread = record {
  thread_traces =
      record {
        buf = record { func = 5; cycle = 300 } ∷ [];
        bytes = 16;
        id = record { pid = 1; tid = 2; name = replicate 16 0 };
      }
      ∷ [];
  ftrace_events = (b'a' ∷ []) ∷ [];
  procmaps = b'x' ∷ [];
}

end_mark :
    write_endtrace []
    ≡ b'E' ∷ b'N' ∷ b'D' ∷ b'T' ∷ b'R' ∷ b'A' ∷ b'C' ∷ b'E' ∷ 0 ∷ 0 ∷ 0 ∷ 0 ∷ 0 ∷ 0 ∷ 0 ∷ 0 ∷ []
unfolding write_endtrace write_chunk le_bytes
end_mark = refl

file_length : length (funtrace_write_snapshot 1000 (b'p' ∷ []) one_thread) ≡ 172
unfolding funtrace_write_snapshot write_procmaps write_funtrace write_endtrace write_tracebufs
    write_ftrace write_lines ftrace_size write_chunk le_bytes
file_length = refl

read_chunks-funtrace_write_snapshot_example :
    read_chunks 7 (funtrace_write_snapshot 1000 (b'p' ∷ []) one_thread)
    ≡ some (snapshot_chunks 1000 (b'p' ∷ []) one_thread)
read_chunks-funtrace_write_snapshot_example =
    read_chunks-funtrace_write_snapshot 7 1000 (b'p' ∷ []) one_thread (omega arith) (omega arith)
      (omega arith) (omega arith) (omega arith)

-- "401000-402000 r-xp 1000 0:0 0 /a\n", of an executable with a readable segment as well.
one_segment :
    get_procmaps (b'/' ∷ b'a' ∷ []) (
      record {
        dlpi_addr = 0x400000;
        dlpi_name = [];
        dlpi_phdr =
            record { p_type = 1; p_flags = 4; p_vaddr = 0; p_memsz = 0x1000; p_offset = 0 }
            ∷ record {
              p_type = 1;
              p_flags = 5;
              p_vaddr = 0x1000;
              p_memsz = 0x1000;
              p_offset = 0x1000;
            }
            ∷ [];
      }
      ∷ [])
    ≡ b'4' ∷ b'0' ∷ b'1' ∷ b'0' ∷ b'0' ∷ b'0' ∷ b'-' ∷ b'4' ∷ b'0' ∷ b'2' ∷ b'0' ∷ b'0' ∷ b'0'
      ∷ b' ' ∷ b'r' ∷ b'-' ∷ b'x' ∷ b'p' ∷ b' ' ∷ b'1' ∷ b'0' ∷ b'0' ∷ b'0' ∷ b' ' ∷ b'0' ∷ b':'
      ∷ b'0' ∷ b' ' ∷ b'0' ∷ b' ' ∷ b'/' ∷ b'a' ∷ 10 ∷ []
unfolding get_procmaps map_lines map_line hex_onto
one_segment = refl
