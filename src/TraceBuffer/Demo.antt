-- ===== src/TraceBuffer/Demo.antt =====
-- A buffer of two entries at address 64 that is full, for the tests.
use funtrace.Prelude.{◌-◌, ◌^◌, refl, replicate, ◌==◌, if◌then◌else◌, arith}
use funtrace.TraceBuffer.Layout.{Memory}
use funtrace.TraceBuffer.Mask.{IsAllocated}
use funtrace.TraceBuffer.{TraceData}

abbrev pub demo_memory : Memory
demo_memory = λ a.
    if a == 64
    then record { func = 1; cycle = 10 }
    else if a == 80
    then record { func = 2; cycle = 20 }
    else record { func = 0; cycle = 0 }

abbrev pub demo : TraceData
demo = record {
  pos = 96;
  wraparound_mask = 2 ^ 64 - 1 - 32;
  buf = 64;
  buf_size = 32;
  thread = 7;
  id = record { pid = 1; tid = 1; name = replicate 16 0 };
  time_of_death_ms = 0;
}

pub demo-IsAllocated : IsAllocated demo
demo-IsAllocated = record {
  log = 5;
  log_min = omega arith;
  log_max = omega arith;
  size = refl;
  base = 1;
  aligned = refl;
  not_null = omega arith;
  in_space = omega arith;
  at_entry = refl;
  in_buffer = omega arith;
}
