-- ===== src/TraceBuffer/Tests.antt =====
-- Runs of a buffer of two entries, and the theorems at it.
use funtrace.Prelude.{
  ℕ, ◌+◌, ◌-◌, ◌*◌, ◌^◌, ◌≡◌, refl, inr, List, [], ◌∷◌, none, some, arith, pos, drop, length, map,
  ◌++◌, ◌<◌, ltb, if◌then◌else◌,
}
use funtrace.TraceBuffer.Layout.{entries_at, load}
use funtrace.TraceBuffer.Mask.{IsAllocated, slots, index}
use funtrace.TraceBuffer.Refine.{IsEnabled, chronological}
use funtrace.TraceBuffer.Run.{
  Event, recorded, trace_all, chronological-trace_all, trace_all_outside,
}
use funtrace.TraceBuffer.Allocate.{IsAligned, fresh, allocate-fresh, allocate_undefined}
use funtrace.TraceBuffer.Demo.{demo, demo_memory, demo-IsAllocated}
use funtrace.TraceBuffer.{MemAlign, trace, allocate}

abbrev calls : List Event
calls = record { ptr = 5; flags = 0; time = 30 } ∷ []

-- The next entry goes to the start of the buffer.
goes_round : (trace 5 0 30 (demo_memory, demo)).1.pos ≡ 80
unfolding trace
goes_round = refl

window_after_one :
    chronological (trace_all calls (demo_memory, demo))
    ≡ record { func = 2; cycle = 20 } ∷ record { func = 5; cycle = 30 } ∷ []
unfolding trace_all trace entries_at
window_after_one = refl

chronological-trace_all_example :
    chronological (trace_all calls (demo_memory, demo))
    ≡ drop (length calls) (chronological (demo_memory, demo) ++ map recorded calls)
chronological-trace_all_example = chronological-trace_all calls demo_memory demo-IsAllocated refl

trace_all_outside_example :
    let (mem', t') = trace_all calls (demo_memory, demo) in
    (mem' 96 ≡ demo_memory 96) × (t'.buf ≡ 64) × (t'.buf_size ≡ 32) × (t'.thread ≡ 7)
trace_all_outside_example =
    trace_all_outside calls demo_memory 96 demo-IsAllocated refl (inr (omega arith))

-- An allocator whose blocks start at their own alignment.
abbrev one_block : MemAlign
one_block alignment size = if ltb alignment (2 ^ 40) then some alignment else none

one_block_address :
    (alignment size p : ℕ)
    → one_block alignment size ≡ some p
    → (p ≡ alignment) × (alignment < 2 ^ 40)
one_block_address alignment size p e = ground arith

one_block-IsAligned : IsAligned one_block
one_block-IsAligned = record {
  multiple =
      λ alignment size p e. (1, omega (arith, one_block_address alignment size p e), omega arith);
  address = λ alignment size p e. omega (arith, one_block_address alignment size p e);
}

allocate-fresh_example :
    let (mem', t') = fresh 5 64 (demo_memory, demo) in
    (allocate (λ _. none) one_block (pos 5) (demo_memory, demo) ≡ some (mem', t'))
    × IsAllocated t'
    × IsEnabled t'
    × (index t' ≡ 0)
    × ((load mem' (t'.buf + 16 * (slots t' - 1))).cycle ≡ 0)
allocate-fresh_example =
    allocate-fresh (λ _. none) one_block (pos 5) (demo_memory, demo) 5 64 one_block-IsAligned refl
      (omega arith) (omega arith) refl

allocate_undefined_example : allocate (λ _. none) one_block (pos 3) (demo_memory, demo) ≡ none
allocate_undefined_example =
    allocate_undefined (λ _. none) one_block (pos 3) (demo_memory, demo)
      (inr (omega arith, omega arith, λ e. cc))
