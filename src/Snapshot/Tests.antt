-- ===== src/Snapshot/Tests.antt =====
-- The snapshot since a time of a buffer of two entries, and the theorems at it.
use funtrace.Prelude.{ℕ, ◌*◌, ◌≡◌, refl, List, [], ◌∷◌, some, arith, length, drop, map, filter, leb}
use funtrace.TraceBuffer.Layout.{Memory, entries_at}
use funtrace.TraceBuffer.Mask.{IsAllocated}
use funtrace.TraceBuffer.Run.{Event, recorded, trace_all}
use funtrace.TraceBuffer.Demo.{demo, demo_memory, demo-IsAllocated}
use funtrace.TraceBuffer.{TraceData, update_name}
use funtrace.Search.{lower_bound}
use funtrace.Snapshot.Select.{find_earliest_event_after, before, copy_from, count_from, in_window}
use funtrace.Snapshot.Exact.{IsLogged, valid_entries, events_since_exact, events_since_future}
use funtrace.Snapshot.Traced.{events_since-trace_all}
use funtrace.Snapshot.{EventBuffer, events_since}

abbrev no_name : ℕ → List ℕ
no_name thread = []

since_fifteen :
    events_since demo_memory no_name 15 25 demo
    ≡ some (record {
      buf = record { func = 2; cycle = 20 } ∷ [];
      bytes = 16;
      id = record { pid = 1; tid = 1; name = [] };
    })
unfolding events_since find_earliest_event_after before copy_from count_from entries_at lower_bound
    update_name
since_fifteen = refl

demo-IsLogged : IsLogged 25 (demo_memory, demo)
unfolding entries_at
demo-IsLogged = omega arith

events_since_exact_example :
    (b : EventBuffer) × (events_since demo_memory no_name 15 25 demo ≡ some b)
    × (b.buf ≡ filter (in_window 15 25) (valid_entries (demo_memory, demo)))
    × (b.bytes ≡ 16 * length b.buf)
events_since_exact_example =
    events_since_exact demo_memory no_name 15 25 demo-IsAllocated demo-IsLogged (omega arith)

events_since_future_example :
    (b : EventBuffer) × (events_since demo_memory no_name 40 25 demo ≡ some b)
    × (b.buf ≡ filter (λ e. leb e.cycle 25) (valid_entries (demo_memory, demo)))
unfolding entries_at
events_since_future_example =
    events_since_future demo_memory no_name 40 25 demo-IsAllocated demo-IsLogged (omega arith)
      (omega arith)

-- The same buffer before its first call.
abbrev fresh : TraceData
fresh = record demo { pos = 64 }

fresh-IsAllocated : IsAllocated fresh
fresh-IsAllocated = record {
  log = 5;
  log_min = omega arith;
  log_max = omega arith;
  size = refl;
  base = 1;
  aligned = refl;
  not_null = omega arith;
  in_space = omega arith;
  at_entry = refl;
  in_buffer = omega arith;
}

abbrev no_entries : Memory
no_entries a = record { func = 0; cycle = 0 }

abbrev first_calls : List Event
first_calls =
    record { ptr = 1; flags = 0; time = 10 } ∷ record { ptr = 2; flags = 0; time = 20 } ∷ []

abbrev late_calls : List Event
late_calls = record { ptr = 3; flags = 0; time = 30 } ∷ []

events_since-trace_all_example :
    let read = trace_all first_calls (no_entries, fresh) in
    (b : EventBuffer) × (events_since (trace_all late_calls read).0 no_name 15 25 read.1 ≡ some b)
    × (b.buf ≡ filter (λ e. leb 15 e.cycle) (drop 1 (map recorded first_calls)))
    × (b.bytes ≡ 16 * length b.buf)
events_since-trace_all_example =
    events_since-trace_all no_entries no_name 15 25 first_calls late_calls fresh-IsAllocated refl
      refl refl (omega arith) ((omega arith, tt), (tt, tt))
      ((omega arith, omega arith), ((omega arith, omega arith), tt)) (tt, tt) (omega arith, tt)
      (omega arith)
