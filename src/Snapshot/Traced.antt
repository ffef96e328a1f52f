-- ===== src/Snapshot/Traced.antt =====
-- What a snapshot since a time takes of a thread that was traced from its registration on, where
-- late calls are written to the buffer between the reading of the position and the search.
use funtrace.Prelude.{
  ℕ, ◌+◌, ◌-◌, ◌*◌, ◌≤◌, ◌≡◌, ◌∙◌, some, List, map, leb, filter, All, drop, length,
}
use funtrace.TraceBuffer.Layout.{Memory, load, entry_size}
use funtrace.TraceBuffer.Mask.{slots, index, IsAllocated}
use funtrace.TraceBuffer.Refine.{IsEnabled}
use funtrace.TraceBuffer.Run.{Event, recorded, trace_all, trace_all-IsAllocated}
use funtrace.TraceBuffer.{TraceData}
use funtrace.Snapshot.Order.{IsOrdered, IsEarly, IsLate}
use funtrace.Snapshot.Exact.{end_of, events_since_exact}
use funtrace.Snapshot.Late.{sound}
use funtrace.Snapshot.{EventBuffer, events_since}

-- For a thread's buffer as it is when its first call is recorded, at its start and with its last
-- entry never written, traced while enabled: a snapshot whose time is not after the pause exists,
-- where the position is read after the calls es, then up to a lap of later calls ls is written, and
-- the memory that is searched and copied is the one after all of ls; writes during the search or
-- the copy are not covered. Where the times of each do not go down, those of es are at least 1 and
-- up to the pause and those of ls after it, the snapshot holds, of the newest calls of es that ls
-- has not overwritten, exactly those from that time on, from the oldest to the newest.
pub events_since-trace_all :
    (mem : Memory) (getname : ℕ → List ℕ) (time pause_time : ℕ) (es ls : List Event) {t : TraceData}
    → IsAllocated t
    → IsEnabled t
    → index t ≡ 0
    → (load mem (end_of t - entry_size)).cycle ≡ 0
    → time ≤ pause_time
    → IsOrdered (map recorded es)
    → All (IsEarly pause_time) (map recorded es)
    → IsOrdered (map recorded ls)
    → All (IsLate pause_time) (map recorded ls)
    → length ls ≤ slots t
    → let read = trace_all es (mem, t) in
      (b : EventBuffer) × (events_since (trace_all ls read).0 getname time pause_time read.1
        ≡ some b)
      × (b.buf
          ≡ filter
              (λ e. leb time e.cycle)
              (drop (length es + length ls - slots t) (map recorded es)))
      × (b.bytes ≡ entry_size * length b.buf)
events_since-trace_all mem getname time pause_time es ls {t} v on first clear le order early
      late_order late lap =
    let (logged, window) =
      sound mem v on first clear pause_time es ls order early late_order late lap in
    let (b, e, bs, n) =
      events_since_exact (trace_all ls (trace_all es (mem, t))).0 getname time pause_time
        (trace_all-IsAllocated es mem v on).0 logged le in
    (b, e, bs ∙ window time, n)
