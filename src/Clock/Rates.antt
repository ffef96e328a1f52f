-- ===== src/Clock/Rates.antt =====
-- What the frequency and the times are.
use funtrace.Prelude.{
  ℕ, ◌+◌, ◌-◌, ◌*◌, ◌/◌, ◌%◌, ◌^◌, ◌≤◌, ◌<◌, ◌≡◌, refl, subst, ◌⊎◌, inl, inr, arith, ◌==◌,
  if◌then◌else◌, Bool-cases,
}
use native.Mathlib.Nat.{mul-le-mul, div-mul-le_self, lt-mul-div-succ, mod-eq_of_lt}
use funtrace.Clock.{Cpuid, get_tsc_freq, cpu_cycles_per_second}

-- Registers of 32 bits.
pub record IsCpuid (cpuid : Cpuid) : Type 0 where
  pub ebx : (cpuid 0x15).ebx < 2 ^ 32
  pub ecx : (cpuid 0x15).ecx < 2 ^ 32

product_lt : (a b : ℕ) → a < 2 ^ 32 → b < 2 ^ 32 → a * b < 2 ^ 64
product_lt a b h k = omega (
  arith,
  mul-le-mul {n₁ = a} {m₁ = b} {n₂ = 2 ^ 32 - 1} {m₂ = 2 ^ 32 - 1} (omega arith) (omega arith),
)

quotient : (n d : ℕ) → 1 ≤ d → (n / d * d ≤ n) × (n < n / d * d + d)
quotient n d h = (div-mul-le_self n d, grind (arith, lt-mul-div-succ n {b = d} h))

-- The registers give a ratio.
abbrev pub HasRatio : Cpuid → Type 0
HasRatio cpuid =
    let res = cpuid 0x15 in (0x15 ≤ (cpuid 0).eax) × (1 ≤ res.eax) × (1 ≤ res.ebx) × (1 ≤ res.ecx)

-- The leaf is missing, or one of the registers is 0.
abbrev pub HasNoRatio : Cpuid → Type 0
HasNoRatio cpuid =
    let res = cpuid 0x15 in
    ((cpuid 0).eax < 0x15) ⊎ ((res.eax ≡ 0) ⊎ ((res.ebx ≡ 0) ⊎ (res.ecx ≡ 0)))

-- A frequency is the nominal one by the ratio of the registers, rounded down.
abbrev pub IsRatio : Cpuid → ℕ → Type 0
IsRatio cpuid freq =
    let res = cpuid 0x15 in
    (freq * res.eax ≤ res.ecx * res.ebx) × (res.ecx * res.ebx < freq * res.eax + res.eax)

-- For registers of 32 bits, the frequency that cpuid gives is 0 where its leaf is missing or one of
-- the registers is 0; where the leaf exists and none of them is 0, it is the nominal frequency by
-- the ratio of the registers, rounded down, and the product of the nominal frequency and the
-- numerator does not wrap.
pub get_tsc_freq-IsRatio :
    (cpuid : Cpuid)
    → IsCpuid cpuid
    → (HasNoRatio cpuid × (get_tsc_freq cpuid ≡ 0))
      ⊎ (HasRatio cpuid × IsRatio cpuid (get_tsc_freq cpuid))
unfolding get_tsc_freq
get_tsc_freq-IsRatio cpuid h = ground (arith, whole, divided)
  where
    p : ℕ
    p = (cpuid 0x15).ecx * (cpuid 0x15).ebx

    whole : p % 2 ^ 64 ≡ p
    whole = mod-eq_of_lt (product_lt (cpuid 0x15).ecx (cpuid 0x15).ebx h.ecx h.ebx)

    divided :
        1 ≤ (cpuid 0x15).eax
        → (p % 2 ^ 64 / (cpuid 0x15).eax * (cpuid 0x15).eax ≤ p)
          × (p < p % 2 ^ 64 / (cpuid 0x15).eax * (cpuid 0x15).eax + (cpuid 0x15).eax)
    divided k = rw whole (quotient p (cpuid 0x15).eax k)

-- For registers of 32 bits, and time stamps around the sleep that differ by less than a tenth of
-- 2^64, the frequency is one of three: that of cpuid, where its leaf exists, no register is 0 and
-- the ratio is not 0; else, where the leaf is missing, a register is 0 or the ratio is 0, that of
-- dmesg, where it reports one; else ten times the difference of the time stamps. It is never 0.
pub cpu_cycles_per_second-source :
    (cpuid : Cpuid) (dmesg start finish : ℕ)
    → IsCpuid cpuid
    → start < finish
    → (finish - start) * 10 < 2 ^ 64
    → finish < 2 ^ 64
    → let freq = cpu_cycles_per_second cpuid dmesg start finish in
      (1 ≤ freq)
      × ((HasRatio cpuid × IsRatio cpuid freq)
          ⊎ ((HasNoRatio cpuid ⊎ IsRatio cpuid 0)
              × (((1 ≤ dmesg) × (freq ≡ dmesg)) ⊎ ((dmesg ≡ 0) × (freq ≡ (finish - start) * 10)))))
unfolding cpu_cycles_per_second
cpu_cycles_per_second-source cpuid dmesg start finish h k l m =
    by_cpuid (get_tsc_freq cpuid) (get_tsc_freq-IsRatio cpuid h)
  where
    Sources : ℕ → Type 0
    Sources freq =
        (1 ≤ freq)
        × ((HasRatio cpuid × IsRatio cpuid freq)
            ⊎ ((HasNoRatio cpuid ⊎ IsRatio cpuid 0)
                × (((1 ≤ dmesg) × (freq ≡ dmesg))
                    ⊎ ((dmesg ≡ 0) × (freq ≡ (finish - start) * 10)))))

    slept : ℕ
    slept = (finish + 2 ^ 64 - start) % 2 ^ 64 * 10 % 2 ^ 64

    slept-difference : slept ≡ (finish - start) * 10
    slept-difference = omega (arith, k, l, m)

    without : HasNoRatio cpuid ⊎ IsRatio cpuid 0 → Sources (if dmesg == 0 then slept else dmesg)
    without missing = elim (Bool-cases (dmesg == 0)) [
      | inl e ↦
          let none_given : dmesg ≡ 0 = ground arith in
          rw e
            (omega (arith, k, slept-difference), inr (missing, inr (none_given, slept-difference)))
      | inr e ↦
          let reported : 1 ≤ dmesg = ground arith in
          rw e (reported, inr (missing, inl (reported, refl)))
    ]

    by_cpuid :
        (f : ℕ)
        → (HasNoRatio cpuid × (f ≡ 0)) ⊎ (HasRatio cpuid × IsRatio cpuid f)
        → Sources (let f' = if f == 0 then dmesg else f in if f' == 0 then slept else f')
    by_cpuid f (inl (missing, e)) = rw e (without (inl missing))
    by_cpuid f (inr (has, ratio)) = elim (Bool-cases (f == 0)) [
      | inl e ↦
          let none_given : f ≡ 0 = ground arith in
          rw e (without (inr (subst (IsRatio cpuid) none_given ratio)))
      | inr e ↦ rw e (rw e (ground arith, inl (has, ratio)))
    ]
