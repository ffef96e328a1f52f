-- ===== src/Funcount/Loaded.antt =====
-- The loops of funcount.cpp over all page tables, when the program starts and when it opens a
-- library.
use funtrace.Prelude.{
  ℕ, ◌≡◌, refl, ap, ◌∙◌, Bool, true, false, Option, none, some, List, [], ◌∷◌, if◌then◌else◌, ◌>>=◌,
  replicate, fun_ext,
}
use funtrace.Funcount.Segments.{
  DlPhdrInfo, Phdr, is_executable, start_addr, phdr_loop, phdr_callback, allocate_page_tables,
}
use funtrace.Funcount.{CountsPagesL2, init, allocate_range}

-- `for(int t=0; t<FUNCOUNT_PAGE_TABLES; ++t)` around a body for the table.
unfoldable pub each_table :
    (CountsPagesL2 → Option CountsPagesL2) → List CountsPagesL2 → Option (List CountsPagesL2)
each_table f [] = some []
each_table f (t ∷ ts) = f t >>= λ t'. each_table f ts >>= λ ts'. some (t' ∷ ts')

unfoldable pub phdr_loop_on : ℕ → List Phdr → List CountsPagesL2 → Option (List CountsPagesL2)
phdr_loop_on dlpi_addr [] tables = some tables
phdr_loop_on dlpi_addr (phdr ∷ phdrs) tables =
    if is_executable phdr
    then (each_table (allocate_range (start_addr dlpi_addr phdr) phdr.p_memsz) tables >>= λ tables'.
        phdr_loop_on dlpi_addr phdrs tables')
    else phdr_loop_on dlpi_addr phdrs tables

unfoldable pub phdr_callback_on : DlPhdrInfo → List CountsPagesL2 → Option (List CountsPagesL2)
phdr_callback_on info tables = phdr_loop_on info.dlpi_addr info.dlpi_phdr tables

unfoldable pub allocate_page_tables_on :
    List DlPhdrInfo → List CountsPagesL2 → Option (List CountsPagesL2)
allocate_page_tables_on [] tables = some tables
allocate_page_tables_on (info ∷ infos) tables =
    phdr_callback_on info tables >>= λ tables'. allocate_page_tables_on infos tables'

-- `FUNCOUNT_PAGE_TABLES` tables, each made by `init`.
unfoldable pub funcount_init_on : ℕ → List DlPhdrInfo → Option (List CountsPagesL2)
funcount_init_on page_tables infos = allocate_page_tables_on infos (replicate page_tables init)

-- `dlopen` and `dlmopen`, where `loaded` are the objects after the loader's own function.
unfoldable pub dlopen_on : List DlPhdrInfo → List CountsPagesL2 → Option (List CountsPagesL2)
dlopen_on loaded tables = allocate_page_tables_on loaded tables

each_table-some : (ts : List CountsPagesL2) → some ts ≡ each_table some ts
unfolding each_table
each_table-some [] = refl
each_table-some (t ∷ ts) = ap (λ r. r >>= λ ts'. some (t ∷ ts')) (each_table-some ts)

-- One loop over the tables after another does to each table one after the other.
each_table-then :
    (f g : CountsPagesL2 → Option CountsPagesL2) (ts : List CountsPagesL2)
    → (each_table f ts >>= λ ts'. each_table g ts') ≡ each_table (λ t. f t >>= g) ts
unfolding each_table
each_table-then f g [] = refl
each_table-then f g (t ∷ ts) =
    by_first (f t) (each_table f ts) ∙ ap (after (f t >>= g)) (each_table-then f g ts)
  where
    after : Option CountsPagesL2 → Option (List CountsPagesL2) → Option (List CountsPagesL2)
    after o r = o >>= λ t'. r >>= λ ts'. some (t' ∷ ts')

    after_none : (o : Option CountsPagesL2) → none ≡ after o none
    after_none none = refl
    after_none (some t') = refl

    by_first :
        (o : Option CountsPagesL2) (r : Option (List CountsPagesL2))
        → (after o r >>= λ ts'. each_table g ts') ≡ after (o >>= g) (r >>= λ ts'. each_table g ts')
    by_first none r = refl
    by_first (some t') none = after_none (g t')
    by_first (some t') (some ts') = refl

phdr_loop_on-each_table :
    (addr : ℕ) (phdrs : List Phdr) (ts : List CountsPagesL2)
    → phdr_loop_on addr phdrs ts ≡ each_table (phdr_loop addr phdrs) ts
unfolding phdr_loop_on phdr_loop
phdr_loop_on-each_table addr [] ts = each_table-some ts
phdr_loop_on-each_table addr (phdr ∷ phdrs) ts =
    by_flag (is_executable phdr) (λ ts. phdr_loop_on-each_table addr phdrs ts)
  where
    mapped : CountsPagesL2 → Option CountsPagesL2
    mapped = allocate_range (start_addr addr phdr) phdr.p_memsz

    by_flag :
        (b : Bool)
        → ((ts : List CountsPagesL2)
            → phdr_loop_on addr phdrs ts ≡ each_table (phdr_loop addr phdrs) ts)
        → (if b
            then (each_table mapped ts >>= λ ts'. phdr_loop_on addr phdrs ts')
            else phdr_loop_on addr phdrs ts)
          ≡ each_table
              (λ t.
                if b then (mapped t >>= λ t'. phdr_loop addr phdrs t') else phdr_loop addr phdrs t)
              ts
    by_flag true h =
        ap (λ k. each_table mapped ts >>= k) (fun_ext h)
        ∙ each_table-then mapped (phdr_loop addr phdrs) ts
    by_flag false h = h ts

pub allocate_page_tables_on-each_table :
    (infos : List DlPhdrInfo) (ts : List CountsPagesL2)
    → allocate_page_tables_on infos ts ≡ each_table (allocate_page_tables infos) ts
unfolding allocate_page_tables_on allocate_page_tables phdr_callback_on phdr_callback
allocate_page_tables_on-each_table [] ts = each_table-some ts
allocate_page_tables_on-each_table (info ∷ infos) ts =
    ap (λ r. r >>= λ ts'. allocate_page_tables_on infos ts')
      (phdr_loop_on-each_table info.dlpi_addr info.dlpi_phdr ts)
    ∙ ap (λ k. each_table (phdr_loop info.dlpi_addr info.dlpi_phdr) ts >>= k)
        (fun_ext (λ ts'. allocate_page_tables_on-each_table infos ts'))
    ∙ each_table-then (phdr_loop info.dlpi_addr info.dlpi_phdr) (allocate_page_tables infos) ts
