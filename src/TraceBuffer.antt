-- ===== src/TraceBuffer.antt =====
-- `trace_data` of funtrace.cpp: a thread's cyclic buffer of trace entries.
-- A pointer is its address, 0 for null. Memory is read and written by whole entries, which
-- stand 16 bytes apart.
pub mod Layout
pub mod Mask
pub mod Window
pub mod Refine
pub mod Run
pub mod Allocate
pub mod Outcome
pub mod Log
pub mod Late
pub mod Demo
mod Tests
use Prim.Native.Nat.{bit_and, bit_or}
use funtrace.Prelude.{
  ℕ, zero, ◌+◌, ◌-◌, ◌*◌, ◌/◌, ◌^◌, Bool, true, false, Option, none, some, List, [], ◌∷◌, ltb, ◌==◌,
  if◌then◌else◌, ℤ, pos, negsuc, is_zero, ◌>>=◌, lognot,
}
use funtrace.Config.{Env, default_log_buf_size}
use Layout.{TraceEntry, Memory, load, store, entry_size}

pub record ThreadId : Type 0 where
  pub pid : ℕ
  pub tid : ℕ
  pub name : List ℕ

pub record TraceData : Type 0 where
  pub pos : ℕ
  pub wraparound_mask : ℕ
  pub buf : ℕ
  pub buf_size : ℕ
  pub thread : ℕ
  pub id : ThreadId
  pub time_of_death_ms : ℕ

unfoldable pub pause_tracing : TraceData → TraceData
pause_tracing t = record t { wraparound_mask = 0 }

unfoldable pub resume_tracing : TraceData → TraceData
resume_tracing t = record t { wraparound_mask = lognot t.buf_size }

-- `1<<n` on `int`, converted to `uint64_t`; `none` where C++11 does not define the
-- shift (later standards define the one at 31).
unfoldable pub shift_one : ℤ → Option ℕ
shift_one (pos n) = if ltb n 31 then some (2 ^ n) else none
shift_one (negsuc n) = none

-- `posix_memalign`: the alignment and the size, and the block if there is one.
abbrev pub MemAlign : Type 0
MemAlign = ℕ → ℕ → Option ℕ

-- Tracing disabled, with no buffer.
abbrev pub no_buffer : TraceData → TraceData
no_buffer t = record t { buf_size = 0; wraparound_mask = 0; buf = 0; pos = 0 }

-- The part of `allocate` below the shift. `none` is the write of `buf[buf_size/16-1]` at a size
-- below 16, which falls outside the block.
allocate_block : MemAlign → ℕ → Memory × TraceData → Option (Memory × TraceData)
allocate_block memalign size (mem, t) = elim (memalign (size * 2) size) [
  | none ↦ some (mem, no_buffer t)
  | some entries ↦
      let last = entries + entry_size * (size / entry_size - 1) in
      if size / entry_size == 0
      then none
      else some (
        store mem last (record (load mem last) { cycle = 0 }),
        record t { buf_size = size; wraparound_mask = lognot size; buf = entries; pos = entries },
      )
]

-- The part of `allocate` below the default.
allocate_log : MemAlign → ℤ → Memory × TraceData → Option (Memory × TraceData)
unfolding allocate_block
allocate_log memalign log (mem, t) =
    if is_zero log
    then some (mem, no_buffer t)
    else shift_one log >>= λ size. allocate_block memalign size (mem, t)

-- `none` is undefined behaviour: a shift out of range, or a write outside the block.
unfoldable pub allocate : Env → MemAlign → ℤ → Memory × TraceData → Option (Memory × TraceData)
unfolding allocate_log
allocate getenv memalign log_buf_size s =
    allocate_log memalign
      (if is_zero log_buf_size then default_log_buf_size getenv else log_buf_size) s

-- The block goes back to the allocator; the caller keeps the books on blocks.
unfoldable pub free : TraceData → TraceData
free t = no_buffer t

-- `cycle` is what `__rdtsc` returns. The mask is read once.
unfoldable pub trace : ℕ → ℕ → ℕ → Memory × TraceData → Memory × TraceData
trace ptr flags cycle (mem, t) =
    let entry = bit_and t.pos t.wraparound_mask in
    if entry == 0 then (mem, t) else (
      store mem entry (record { func = bit_or ptr flags; cycle = cycle }),
      record t { pos = entry + entry_size },
    )

-- `pthread_getname_np` is given; a finished thread keeps its name.
unfoldable pub update_name : (ℕ → List ℕ) → TraceData → TraceData
update_name getname t =
    if t.thread == 0 then t else record t { id = record id { name = getname t.thread } }
  where
    open t use {id}
