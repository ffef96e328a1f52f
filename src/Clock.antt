-- ===== src/Clock.antt =====
-- The clock of funtrace.cpp: the frequency of the time stamp counter, and times in milliseconds.
-- The cpuid instruction, the frequency that dmesg reports (0 if none) and the two time stamps
-- around the sleep are parameters.
pub mod Rates
mod Tests
use funtrace.Prelude.{
  ℕ, ◌+◌, ◌-◌, ◌*◌, ◌/◌, ◌%◌, ◌^◌, Bool, true, false, ◌||◌, Option, none, some, ltb, ◌==◌,
  if◌then◌else◌,
}

-- The registers after cpuid.
pub record Cpuid15h : Type 0 where
  pub eax : ℕ
  pub ebx : ℕ
  pub ecx : ℕ

-- By the leaf.
abbrev pub Cpuid : Type 0
Cpuid = ℕ → Cpuid15h

unfoldable pub get_tsc_freq : Cpuid → ℕ
get_tsc_freq cpuid =
    let res = cpuid 0x15 in
    if ltb (cpuid 0).eax 0x15
    then 0
    else if res.eax == 0 || res.ebx == 0
    then 0
    else if res.ecx == 0
    then 0
    else (res.ecx * res.ebx % 2 ^ 64) / res.eax

-- `start` and `finish` are read only where neither cpuid nor dmesg gives a frequency.
unfoldable pub cpu_cycles_per_second : Cpuid → ℕ → ℕ → ℕ → ℕ
cpu_cycles_per_second cpuid dmesg start finish =
    let freq = get_tsc_freq cpuid in
    let freq' = if freq == 0 then dmesg else freq in
    if freq' == 0 then (finish + 2 ^ 64 - start) % 2 ^ 64 * 10 % 2 ^ 64 else freq'

-- `none` is a division by zero.
unfoldable pub current_time_ms : ℕ → ℕ → Option ℕ
current_time_ms time cycles_per_second =
    let per_ms = cycles_per_second / 1000 in if per_ms == 0 then none else some (time / per_ms)
