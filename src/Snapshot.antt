-- ===== src/Snapshot.antt =====
-- The snapshots of funtrace.cpp: what each function that takes one copies from the registered
-- traces, and what it does to the registry. Each runs under the registry's mutex.
pub mod Select
pub mod Exact
pub mod Order
pub mod Late
pub mod Traced
pub mod Logged
mod Tests
use funtrace.Prelude.{
  ℕ, zero, ◌+◌, ◌-◌, ◌*◌, ◌/◌, ◌%◌, ◌^◌, Option, none, some, List, [], ◌∷◌, ◌++◌, ◌==◌,
  if◌then◌else◌, ◌>>=◌,
}
use funtrace.TraceBuffer.Layout.{TraceEntry, Memory, load, entry_size, entries_at}
use funtrace.TraceBuffer.{TraceData, ThreadId, update_name}
use funtrace.Registry.{State, pause_tracing, resume_tracing, modify_all}
use Select.{find_earliest_event_after, count_from, copy_from}

-- The entries that `buf` points to, and the number of bytes.
pub record EventBuffer : Type 0 where
  pub buf : List TraceEntry
  pub bytes : ℕ
  pub id : ThreadId

pub record FuntraceSnapshot : Type 0 where
  pub thread_traces : List EventBuffer
  pub ftrace_events : List (List ℕ)
  pub procmaps : List ℕ

-- The search to the right of the position, made only if the buffer's last entry was written.
unfoldable pub earliest_right : Memory → ℕ → ℕ → TraceData → Option ℕ
earliest_right mem time pause_time t =
    let end = t.buf + entry_size * (t.buf_size / entry_size) in
    if (load mem (end - entry_size)).cycle == 0
    then none
    else find_earliest_event_after mem t.pos end time pause_time

-- The copies from the places found.
unfoldable pub copied : Memory → (ℕ → List ℕ) → Option ℕ → Option ℕ → TraceData → EventBuffer
copied mem getname right left t =
    let end = t.buf + entry_size * (t.buf_size / entry_size) in
    record {
      buf = copy_from mem right end ++ copy_from mem left t.pos;
      bytes = (count_from left t.pos + count_from right end) * entry_size;
      id = (update_name getname t).id;
    }

-- One round of the loop over the traces: the events since a time. `none` is the read of `end[-1]`
-- where the trace has no buffer.
unfoldable pub events_since : Memory → (ℕ → List ℕ) → ℕ → ℕ → TraceData → Option EventBuffer
unfolding earliest_right copied
events_since mem getname time pause_time t =
    if t.buf_size / entry_size == 0
    then none
    else some (
        copied mem getname (earliest_right mem time pause_time t)
          (find_earliest_event_after mem t.buf t.pos time pause_time) t)

-- One round of the loop that copies whole buffers.
unfoldable pub whole_buffer : Memory → (ℕ → List ℕ) → TraceData → EventBuffer
whole_buffer mem getname t = record {
  buf = entries_at mem t.buf (t.buf_size / entry_size);
  bytes = t.buf_size;
  id = (update_name getname t).id;
}

-- What is written straight from a paused trace, without a copy.
unfoldable pub straight_buffer : Memory → (ℕ → List ℕ) → TraceData → EventBuffer
straight_buffer mem getname t =
    let named = update_name getname t in
    record {
      buf = entries_at mem named.buf (named.buf_size / entry_size);
      bytes = named.buf_size;
      id = named.id;
    }

unfoldable pub all_since :
    Memory → (ℕ → List ℕ) → ℕ → ℕ → List TraceData → Option (List EventBuffer)
all_since mem getname time pause_time [] = some []
all_since mem getname time pause_time (t ∷ ts) =
    let rest = all_since mem getname time pause_time ts in
    events_since mem getname time pause_time t >>= λ b. rest >>= λ bs. some (b ∷ bs)
