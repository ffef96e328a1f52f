-- ===== src/Funcount/Kept.antt =====
-- The counts of a table while more pages are mapped.
use funtrace.Prelude.{
  ℕ, zero, suc, ◌+◌, ◌%◌, ◌^◌, ◌≡◌, refl, ap, sym, ◌∙◌, inl, inr, Option, none, some, List, [], ◌∷◌,
  arith, leb, ◌==◌, ◌>>=◌, Bool-cases, Option-cases,
}
use mathlib.Core.Option.{some-injective}
use funtrace.Funcount.Address.{page_size, high_bits, mid_bits}
use funtrace.Funcount.Segments.{
  DlPhdrInfo, Phdr, is_executable, start_addr, phdr_loop, phdr_callback, allocate_page_tables,
}
use funtrace.Funcount.{
  CountsPagesL2, Counter, put, or_new, new_pages, new_page, value, allocate_page, allocate_from,
  range_start, range_end, allocate_range,
}

-- Every count has its value, where the result is one.
abbrev pub Keeps : CountsPagesL2 → Option CountsPagesL2 → Type 0
Keeps t r = (t' : CountsPagesL2) → r ≡ some t' → (c : Counter) → value t' c ≡ value t c

Keeps-refl : (t : CountsPagesL2) → Keeps t (some t)
Keeps-refl t t' e c = ap (λ x. value x c) (sym (some-injective _ _ e))

Keeps-then :
    (t : CountsPagesL2) (r : Option CountsPagesL2) (next : CountsPagesL2 → Option CountsPagesL2)
    → Keeps t r
    → ((t' : CountsPagesL2) → Keeps t' (next t'))
    → Keeps t (r >>= next)
Keeps-then t none next h k t' e c = absurd (cc e)
Keeps-then t (some u) next h k t' e c = k u t' e c ∙ h u refl c

put_page-value :
    (high mid : ℕ) (t : CountsPagesL2) (c : Counter)
    → value
        (record t {
          pages_l1 =
              put high
                (some (
                  put mid
                    (some (or_new (or_new (t.pages_l1 high) new_pages mid) new_page))
                    (or_new (t.pages_l1 high) new_pages)))
                t.pages_l1;
        })
        c
      ≡ value t c
put_page-value high mid t Counter.unknown = refl
put_page-value high mid t (Counter.count h m l) = elim (Bool-cases (h == high)) [
  | inr e ↦ rw e refl
  | inl e ↦ elim (Bool-cases (m == mid)) [
    | inl f ↦ elim (Option-cases (t.pages_l1 high)) [
      | inl g ↦ ground arith
      | inr (ps, g) ↦ ground arith
    ]
    | inr f ↦ elim (Option-cases (t.pages_l1 high)) [
      | inl g ↦ ground arith
      | inr (ps, g) ↦ ground arith
    ]
  ]
]

allocate_page-Keeps : (a : ℕ) (t : CountsPagesL2) → Keeps t (allocate_page a t)
unfolding allocate_page
allocate_page-Keeps a t t' e c = by_high (high_bits a) e
  where
    made : ℕ → CountsPagesL2
    made high = record t {
      pages_l1 =
          put high
            (some (
              put (mid_bits a)
                (some (or_new (or_new (t.pages_l1 high) new_pages (mid_bits a)) new_page))
                (or_new (t.pages_l1 high) new_pages)))
            t.pages_l1;
    }

    by_high : (o : Option ℕ) → (o >>= λ high. some (made high)) ≡ some t' → value t' c ≡ value t c
    by_high none e = absurd (cc e)
    by_high (some high) e =
        ap (λ x. value x c) (sym (some-injective _ _ e)) ∙ put_page-value high (mid_bits a) t c

allocate_from-Keeps : (fuel a end : ℕ) (t : CountsPagesL2) → Keeps t (allocate_from fuel a end t)
unfolding allocate_from
allocate_from-Keeps zero a end t = Keeps-refl t
allocate_from-Keeps (suc fuel) a end t = elim (Bool-cases (leb a end)) [
  | inl e ↦ rw e (
      Keeps-then t (allocate_page a t) (allocate_from fuel ((a + page_size) % 2 ^ 64) end)
        (allocate_page-Keeps a t)
        (λ t'. allocate_from-Keeps fuel ((a + page_size) % 2 ^ 64) end t'))
  | inr e ↦ rw e (Keeps-refl t)
]

allocate_range-Keeps : (base size : ℕ) (t : CountsPagesL2) → Keeps t (allocate_range base size t)
unfolding allocate_range
allocate_range-Keeps base size t = allocate_from-Keeps _ (range_start base) (range_end base size) t

phdr_loop-Keeps :
    (addr : ℕ) (phdrs : List Phdr) (t : CountsPagesL2) → Keeps t (phdr_loop addr phdrs t)
unfolding phdr_loop
phdr_loop-Keeps addr [] t = Keeps-refl t
phdr_loop-Keeps addr (phdr ∷ phdrs) t = elim (Bool-cases (is_executable phdr)) [
  | inr e ↦ rw e (phdr_loop-Keeps addr phdrs t)
  | inl e ↦ rw e (
      Keeps-then t (allocate_range (start_addr addr phdr) phdr.p_memsz t) (phdr_loop addr phdrs)
        (allocate_range-Keeps (start_addr addr phdr) phdr.p_memsz t)
        (λ t'. phdr_loop-Keeps addr phdrs t'))
]

pub allocate_page_tables-Keeps :
    (infos : List DlPhdrInfo) (t : CountsPagesL2) → Keeps t (allocate_page_tables infos t)
unfolding allocate_page_tables phdr_callback
allocate_page_tables-Keeps [] t = Keeps-refl t
allocate_page_tables-Keeps (info ∷ infos) t =
    Keeps-then t (phdr_loop info.dlpi_addr info.dlpi_phdr t) (allocate_page_tables infos)
      (phdr_loop-Keeps info.dlpi_addr info.dlpi_phdr t) (λ t'. allocate_page_tables-Keeps infos t')
