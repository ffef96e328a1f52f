-- ===== src/Format/Procmaps.antt =====
-- The memory map that funtrace.cpp writes into a snapshot: a line for each executable segment of the
-- loaded objects, in the format of /proc/self/maps.
use funtrace.Prelude.{
  ℕ, zero, suc, ◌+◌, ◌-◌, ◌*◌, ◌/◌, ◌%◌, ◌^◌, ◌≤◌, ◌<◌, ◌≡◌, refl, ap, ◌∙◌, inl, inr, Bool, not,
  ◌&&◌, List, [], ◌∷◌, ◌++◌, arith, ltb, ◌==◌, if◌then◌else◌, bit_and, Bool-cases, dec_lt,
  two-pow-add,
}

-- `ElfW(Phdr)` and `dl_phdr_info`, the members read; a name without its null.
pub record Segment : Type 0 where
  pub p_type : ℕ
  pub p_flags : ℕ
  pub p_vaddr : ℕ
  pub p_memsz : ℕ
  pub p_offset : ℕ

pub record LoadedObject : Type 0 where
  pub dlpi_addr : ℕ
  pub dlpi_name : List ℕ
  pub dlpi_phdr : List Segment

abbrev pub hex_digit : ℕ → ℕ
hex_digit d = if ltb d 10 then b'0' + d else b'a' + (d - 10)

-- `std::hex`: 16 digits are enough for 64 bits.
unfoldable pub hex_onto : ℕ → ℕ → List ℕ → List ℕ
hex_onto zero n s = s
hex_onto (suc fuel) n s =
    let rest = hex_onto fuel (n / 16) (hex_digit (n % 16) ∷ s) in
    if n / 16 == 0 then hex_digit (n % 16) ∷ s else rest

abbrev pub hex : ℕ → List ℕ
hex n = hex_onto 16 n []

-- `PT_LOAD` and `PF_X` are 1.
abbrev pub is_mapped : Segment → Bool
is_mapped phdr = phdr.p_type == 1 && not (bit_and phdr.p_flags 1 == 0)

unfoldable pub map_line : List ℕ → ℕ → Segment → List ℕ
map_line name dlpi_addr phdr =
    let start_addr = (dlpi_addr + phdr.p_vaddr) % 2 ^ 64 in
    let end_addr = (start_addr + phdr.p_memsz) % 2 ^ 64 in
    hex start_addr
    ++ (b'-' ∷ [])
    ++ hex end_addr
    ++ (b' ' ∷ b'r' ∷ b'-' ∷ b'x' ∷ b'p' ∷ b' ' ∷ [])
    ++ hex phdr.p_offset
    ++ (b' ' ∷ b'0' ∷ b':' ∷ b'0' ∷ b' ' ∷ b'0' ∷ b' ' ∷ [])
    ++ name
    ++ (10 ∷ [])

abbrev or_exe : List ℕ → List ℕ → List ℕ
or_exe exe_path [] = exe_path
or_exe exe_path (c ∷ name) = c ∷ name

unfoldable pub map_lines : List ℕ → LoadedObject → List Segment → List ℕ
map_lines exe_path info [] = []
map_lines exe_path info (phdr ∷ phdrs) =
    let rest = map_lines exe_path info phdrs in
    if is_mapped phdr
    then map_line (or_exe exe_path info.dlpi_name) info.dlpi_addr phdr ++ rest
    else rest

-- `dl_iterate_phdr` calls `phdr_callback` for each object.
unfoldable pub get_procmaps : List ℕ → List LoadedObject → List ℕ
get_procmaps exe_path [] = []
get_procmaps exe_path (info ∷ infos) =
    map_lines exe_path info info.dlpi_phdr ++ get_procmaps exe_path infos

-- The number that hexadecimal digits write.
abbrev hex_value : ℕ → ℕ
hex_value c = if ltb c b'a' then c - b'0' else c - b'a' + 10

abbrev pub read_hex : ℕ → List ℕ → ℕ
read_hex n [] = n
read_hex n (c ∷ s) = read_hex (n * 16 + hex_value c) s

hex_value-digit : (d : ℕ) → d < 16 → hex_value (hex_digit d) ≡ d
hex_value-digit d h = ground arith

read_hex-digit :
    (m n : ℕ) (s : List ℕ) → m ≡ n / 16 → read_hex m (hex_digit (n % 16) ∷ s) ≡ read_hex n s
read_hex-digit m n s e =
    ap (λ k. read_hex k s) (omega (arith, e, hex_value-digit (n % 16) (omega arith)))

read_hex-hex_onto :
    (fuel n : ℕ) (s : List ℕ)
    → n < 2 ^ (4 * fuel)
    → 1 ≤ fuel
    → read_hex 0 (hex_onto fuel n s) ≡ read_hex n s
unfolding hex_onto
read_hex-hex_onto zero n s h k = absurd (omega arith)
read_hex-hex_onto (suc fuel) n s h k = elim (Bool-cases (n / 16 == 0)) [
  | inl e ↦ rw e (read_hex-digit 0 n s (ground arith))
  | inr e ↦ rw e (
      read_hex-hex_onto fuel (n / 16) (hex_digit (n % 16) ∷ s) below (some_left (ground arith))
      ∙ read_hex-digit (n / 16) n s refl)
]
  where
    exponent : 4 * suc fuel ≡ 4 + 4 * fuel
    exponent = omega arith

    below : n / 16 < 2 ^ (4 * fuel)
    below = omega (arith, h, ap (λ k. 2 ^ k) exponent, two-pow-add 4 (4 * fuel))

    some_left : 1 ≤ n / 16 → 1 ≤ fuel
    some_left pos = elim (dec_lt 0 fuel) [
      | yes lt ↦ lt
      | no ge ↦ absurd (omega (arith, below, ap (λ k. 2 ^ k) (none_left ge)))
    ]
      where
        none_left : ¬ (0 < fuel) → 4 * fuel ≡ 0
        none_left ge = omega arith

-- The numbers of the memory map can be read back.
pub read_hex-hex : (n : ℕ) → n < 2 ^ 64 → read_hex 0 (hex n) ≡ n
read_hex-hex n h = read_hex-hex_onto 16 n [] h (omega arith)
