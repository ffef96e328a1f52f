-- ===== src/Clock/Tests.antt =====
-- A processor of 3 GHz whose counter the 24 MHz crystal drives, and the theorems at it.
use funtrace.Prelude.{ℕ, ◌-◌, ◌*◌, ◌≤◌, ◌≡◌, ◌⊎◌, refl, some, arith}
use funtrace.Clock.Rates.{
  IsCpuid, HasRatio, HasNoRatio, IsRatio, get_tsc_freq-IsRatio, cpu_cycles_per_second-source,
}
use funtrace.Clock.{Cpuid, get_tsc_freq, cpu_cycles_per_second, current_time_ms}

abbrev three_ghz : Cpuid
three_ghz leaf = record { eax = 22; ebx = 2750; ecx = 24000000 }

three_ghz-freq : get_tsc_freq three_ghz ≡ 3000000000
unfolding get_tsc_freq
three_ghz-freq = refl

three_ghz-IsCpuid : IsCpuid three_ghz
three_ghz-IsCpuid = record { ebx = omega arith; ecx = omega arith }

get_tsc_freq-IsRatio_example :
    (HasNoRatio three_ghz × (get_tsc_freq three_ghz ≡ 0))
    ⊎ (HasRatio three_ghz × IsRatio three_ghz (get_tsc_freq three_ghz))
get_tsc_freq-IsRatio_example = get_tsc_freq-IsRatio three_ghz three_ghz-IsCpuid

-- An older processor, without the leaf.
abbrev leafless : Cpuid
leafless leaf = record { eax = 13; ebx = 0; ecx = 0 }

abbrev no_dmesg : ℕ
no_dmesg = 0

leafless-IsCpuid : IsCpuid leafless
leafless-IsCpuid = record { ebx = omega arith; ecx = omega arith }

cpu_cycles_per_second-source_example :
    let freq = cpu_cycles_per_second leafless no_dmesg 5 200000005 in
    (1 ≤ freq)
    × ((HasRatio leafless × IsRatio leafless freq)
        ⊎ ((HasNoRatio leafless ⊎ IsRatio leafless 0)
            × (((1 ≤ no_dmesg) × (freq ≡ no_dmesg))
                ⊎ ((no_dmesg ≡ 0) × (freq ≡ (200000005 - 5) * 10)))))
cpu_cycles_per_second-source_example =
    cpu_cycles_per_second-source leafless no_dmesg 5 200000005 leafless-IsCpuid (omega arith)
      (omega arith) (omega arith)

current_time_ms-three_ghz : current_time_ms 7000000 3000000 ≡ some 2333
unfolding current_time_ms
current_time_ms-three_ghz = refl
