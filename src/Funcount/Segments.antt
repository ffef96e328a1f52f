-- ===== src/Funcount/Segments.antt =====
-- The executable segments of the loaded objects, which `dl_iterate_phdr` passes to `phdr_callback`
-- of funcount.cpp one object at a time; with one page table.
use funtrace.Prelude.{
  ℕ, ◌+◌, ◌%◌, ◌^◌, ◌≤◌, ◌<◌, ◌≡◌, ◌≢◌, refl, ap, sym, ◌∙◌, ◌⊎◌, inl, inr, Bool, true, false, not,
  ◌&&◌, ◌||◌, Option, some, List, [], ◌∷◌, All, arith, ltb, leb, ◌==◌, if◌then◌else◌, ◌>>=◌,
  bit_and, Bool-cases,
}
use funtrace.Funcount.Address.{page_size}
use funtrace.Funcount.Mapped.{own_count, allocate_range-due, get_count_known}
use funtrace.Funcount.{CountsPagesL2, Counter, init, allocate_range, get_count}

-- `ElfW(Phdr)` and `dl_phdr_info`
pub record Phdr : Type 0 where
  pub p_type : ℕ
  pub p_flags : ℕ
  pub p_vaddr : ℕ
  pub p_memsz : ℕ

pub record DlPhdrInfo : Type 0 where
  pub dlpi_addr : ℕ
  pub dlpi_phdr : List Phdr

-- `PT_LOAD` and `PF_X` of elf.h
abbrev pub pt_load : ℕ
pt_load = 1

abbrev pub pf_x : ℕ
pf_x = 1

abbrev pub is_executable : Phdr → Bool
is_executable phdr = phdr.p_type == pt_load && not (bit_and phdr.p_flags pf_x == 0)

abbrev pub start_addr : ℕ → Phdr → ℕ
start_addr dlpi_addr phdr = (dlpi_addr + phdr.p_vaddr) % 2 ^ 64

unfoldable pub phdr_loop : ℕ → List Phdr → CountsPagesL2 → Option CountsPagesL2
phdr_loop dlpi_addr [] t = some t
phdr_loop dlpi_addr (phdr ∷ phdrs) t =
    if is_executable phdr
    then (allocate_range (start_addr dlpi_addr phdr) phdr.p_memsz t >>= λ t'.
        phdr_loop dlpi_addr phdrs t')
    else phdr_loop dlpi_addr phdrs t

unfoldable pub phdr_callback : DlPhdrInfo → CountsPagesL2 → Option CountsPagesL2
phdr_callback info t = phdr_loop info.dlpi_addr info.dlpi_phdr t

unfoldable pub allocate_page_tables : List DlPhdrInfo → CountsPagesL2 → Option CountsPagesL2
allocate_page_tables [] t = some t
allocate_page_tables (info ∷ infos) t = phdr_callback info t >>= λ t'. allocate_page_tables infos t'

unfoldable pub funcount_init : List DlPhdrInfo → Option CountsPagesL2
funcount_init infos = allocate_page_tables infos init

-- An executable segment ends a page in front of 2^48.
abbrev pub IsPlaced : ℕ → Phdr → Type 0
IsPlaced dlpi_addr phdr = start_addr dlpi_addr phdr + phdr.p_memsz + page_size ≤ 2 ^ 48

-- Whether an address is in an executable segment of the object, of one of the objects.
abbrev pub is_in_phdrs : ℕ → ℕ → List Phdr → Bool
is_in_phdrs a dlpi_addr [] = false
is_in_phdrs a dlpi_addr (phdr ∷ phdrs) =
    (is_executable phdr
      && (leb (start_addr dlpi_addr phdr) a && ltb a (start_addr dlpi_addr phdr + phdr.p_memsz)))
    || is_in_phdrs a dlpi_addr phdrs

abbrev pub is_in_segment : ℕ → List DlPhdrInfo → Bool
is_in_segment a [] = false
is_in_segment a (info ∷ infos) =
    is_in_phdrs a info.dlpi_addr info.dlpi_phdr || is_in_segment a infos

-- A run of the loops that maps what is asked for.
abbrev pub Maps : (ℕ → Bool) → CountsPagesL2 → Option CountsPagesL2 → Type 0
Maps asked t result =
    (t' : CountsPagesL2) × (result ≡ some t')
    × ((a : ℕ)
        → a < 2 ^ 48
        → (asked a ≡ true) ⊎ (get_count t a ≢ some Counter.unknown)
        → get_count t' a ≡ some (own_count a))

own_count_known : (a : ℕ) → some (own_count a) ≢ some Counter.unknown
own_count_known a e = cc

-- One run after another.
pub Maps-then :
    (p q : ℕ → Bool) (t : CountsPagesL2) (r : Option CountsPagesL2)
    (next : CountsPagesL2 → Option CountsPagesL2)
    → Maps p t r
    → ((t' : CountsPagesL2) → Maps q t' (next t'))
    → Maps (λ a. p a || q a) t (r >>= next)
Maps-then p q t r next (t', e, k) n =
    let (t'', f, l) = n t' in
    (t'', ap (λ o. o >>= next) e ∙ f, λ a small due. l a small (keeps a small due))
  where
    keeps :
        (a : ℕ)
        → a < 2 ^ 48
        → ((p a || q a) ≡ true) ⊎ (get_count t a ≢ some Counter.unknown)
        → (q a ≡ true) ⊎ (get_count t' a ≢ some Counter.unknown)
    keeps a small (inr ne) = inr (λ u. own_count_known a (sym (k a small (inr ne)) ∙ u))
    keeps a small (inl h) = elim (Bool-cases (p a)) [
      | inl e ↦ inr (λ u. own_count_known a (sym (k a small (inl e)) ∙ u))
      | inr e ↦ inl (ground arith)
    ]

allocate_range-Maps :
    (base size : ℕ) (t : CountsPagesL2)
    → base + size + page_size ≤ 2 ^ 48
    → Maps (λ a. leb base a && ltb a (base + size)) t (allocate_range base size t)
allocate_range-Maps base size t fits =
    let (t', e, k) = allocate_range-due base size t fits in
    (t', e, λ a small due. k a small (range a due))
  where
    range :
        (a : ℕ)
        → ((leb base a && ltb a (base + size)) ≡ true) ⊎ (get_count t a ≢ some Counter.unknown)
        → ((base ≤ a) × (a < base + size)) ⊎ (get_count t a ≢ some Counter.unknown)
    range a (inl h) = inl (ground arith, ground arith)
    range a (inr ne) = inr ne

-- Where nothing is asked for, what is known stays.
pub kept_none :
    (a : ℕ) (t : CountsPagesL2)
    → a < 2 ^ 48
    → (false ≡ true) ⊎ (get_count t a ≢ some Counter.unknown)
    → get_count t a ≡ some (own_count a)
kept_none a t small (inl e) = cc
kept_none a t small (inr ne) = get_count_known a t small ne

phdr_loop-Maps :
    (addr : ℕ) (phdrs : List Phdr) (t : CountsPagesL2)
    → All (λ phdr. is_executable phdr ≡ true → IsPlaced addr phdr) phdrs
    → Maps (λ a. is_in_phdrs a addr phdrs) t (phdr_loop addr phdrs t)
unfolding phdr_loop
phdr_loop-Maps addr [] t h = (t, refl, λ a small due. kept_none a t small due)
phdr_loop-Maps addr (phdr ∷ phdrs) t h = elim (Bool-cases (is_executable phdr)) [
  | inr e ↦ rw e (phdr_loop-Maps addr phdrs t h.1)
  | inl e ↦ rw e (
      Maps-then (λ a. leb (start_addr addr phdr) a && ltb a (start_addr addr phdr + phdr.p_memsz))
        (λ a. is_in_phdrs a addr phdrs) t (allocate_range (start_addr addr phdr) phdr.p_memsz t)
        (phdr_loop addr phdrs) (allocate_range-Maps (start_addr addr phdr) phdr.p_memsz t (h.0 e))
        (λ t'. phdr_loop-Maps addr phdrs t' h.1))
]

pub allocate_page_tables-Maps :
    (infos : List DlPhdrInfo) (t : CountsPagesL2)
    → All
        (λ info.
          All (λ phdr. is_executable phdr ≡ true → IsPlaced info.dlpi_addr phdr) info.dlpi_phdr)
        infos
    → Maps (λ a. is_in_segment a infos) t (allocate_page_tables infos t)
unfolding allocate_page_tables phdr_callback
allocate_page_tables-Maps [] t h = (t, refl, λ a small due. kept_none a t small due)
allocate_page_tables-Maps (info ∷ infos) t h =
    Maps-then (λ a. is_in_phdrs a info.dlpi_addr info.dlpi_phdr) (λ a. is_in_segment a infos) t
      (phdr_loop info.dlpi_addr info.dlpi_phdr t) (allocate_page_tables infos)
      (phdr_loop-Maps info.dlpi_addr info.dlpi_phdr t h.0)
      (λ t'. allocate_page_tables-Maps infos t' h.1)

-- Where the executable segments of the loaded objects end a page in front of 2^48, no assertion
-- fails, and afterwards each address in one of them has a count of its own group of 8 bytes.
funcount_init-get_count :
    (infos : List DlPhdrInfo)
    → All
        (λ info.
          All (λ phdr. is_executable phdr ≡ true → IsPlaced info.dlpi_addr phdr) info.dlpi_phdr)
        infos
    → (t' : CountsPagesL2) × (funcount_init infos ≡ some t')
      × ((a : ℕ) → a < 2 ^ 48 → is_in_segment a infos ≡ true → get_count t' a ≡ some (own_count a))
unfolding funcount_init
funcount_init-get_count infos h =
    let (t', e, k) = allocate_page_tables-Maps infos init h in
    (t', e, λ a small inside. k a small (inl inside))
