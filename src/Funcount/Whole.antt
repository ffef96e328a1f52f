-- ===== src/Funcount/Whole.antt =====
-- A program under funcount.cpp from funcount_init to its end: it maps what is loaded, calls functions on
-- any cores, opens libraries in between, and reports the counts.
use funtrace.Prelude.{
  ℕ, zero, suc, ◌+◌, ◌/◌, ◌%◌, ◌^◌, ◌≤◌, ◌<◌, ◌≡◌, ◌≢◌, ◌⊎◌, refl, ap, ap₂, ◌∙◌, inl, inr, true,
  Option, none, some, List, [], ◌∷◌, All, arith, ◌>>=◌, replicate, length,
}
use funtrace.Funcount.Address.{address_of}
use funtrace.Funcount.Counting.{is_some}
use funtrace.Funcount.Mapped.{own_count, get_count-eq, page_of}
use funtrace.Funcount.Segments.{
  DlPhdrInfo, is_in_segment, allocate_page_tables, allocate_page_tables-Maps,
}
use funtrace.Funcount.Opened.{ArePlaced}
use funtrace.Funcount.Kept.{allocate_page_tables-Keeps}
use funtrace.Funcount.Loaded.{
  each_table, funcount_init_on, dlopen_on, allocate_page_tables_on-each_table,
}
use funtrace.Funcount.Exit.{total, printed}
use funtrace.Funcount.Tables.{
  Call, enter_on, calls_in_group, report, enter_all_on, enter_on-Counted, enter_all_on-report,
}
use funtrace.Funcount.Report.{CountLine}
use funtrace.Funcount.{CountsPagesL2, init, page_at, Counter, counter_at, get_count, count_size}

-- A call, or a library that is opened, with the objects that are loaded then.
pub data Event : Type 0 where
  calls : Call → Event
  opens : List DlPhdrInfo → Event

unfoldable pub event_on : Event → List CountsPagesL2 → Option (List CountsPagesL2)
event_on (calls c) tables = enter_on c tables
event_on (opens loaded) tables = dlopen_on loaded tables

unfoldable pub events_on : List Event → List CountsPagesL2 → Option (List CountsPagesL2)
events_on [] tables = some tables
events_on (e ∷ es) tables = event_on e tables >>= λ tables'. events_on es tables'

abbrev pub IsPossible : Event → Type 0
IsPossible (calls c) = c.func < 2 ^ 48
IsPossible (opens loaded) = ArePlaced loaded

-- The calls among the events.
abbrev pub calls_of : List Event → List Call
calls_of [] = []
calls_of (calls c ∷ es) = c ∷ calls_of es
calls_of (opens loaded ∷ es) = calls_of es

-- A group whose addresses have a count of their own has a page.
known-page :
    (a : ℕ) (t : CountsPagesL2)
    → a < 2 ^ 48
    → get_count t a ≡ some (own_count a)
    → is_some (page_at t (a / 2 ^ 32) (a / 2 ^ 16 % 2 ^ 16)) ≡ true
known-page a t small e = by_page (page_of t a) refl
  where
    by_page : (o : Option (ℕ → ℕ)) → page_of t a ≡ o → is_some (page_of t a) ≡ true
    by_page (some page) f = ap is_some f
    by_page none f = absurd (
        cc (
          e,
          get_count-eq a t small,
          ap (λ o. counter_at o (a / 2 ^ 32) (a / 2 ^ 16 % 2 ^ 16) (a % 2 ^ 16 / count_size)) f,
        ))

page-known :
    (a : ℕ) (t : CountsPagesL2)
    → a < 2 ^ 48
    → is_some (page_at t (a / 2 ^ 32) (a / 2 ^ 16 % 2 ^ 16)) ≡ true
    → get_count t a ≢ some Counter.unknown
page-known a t small p u = by_page (page_of t a) refl
  where
    by_page : (o : Option (ℕ → ℕ)) → page_of t a ≡ o → ⊥
    by_page none f = cc (p, f)
    by_page (some page) f = cc (
      u,
      get_count-eq a t small,
      ap (λ o. counter_at o (a / 2 ^ 32) (a / 2 ^ 16 % 2 ^ 16) (a % 2 ^ 16 / count_size)) f,
    )

module _ (a : ℕ) (small : a < 2 ^ 48) where
  abbrev h : ℕ
  h = a / 2 ^ 32

  abbrev m : ℕ
  m = a / 2 ^ 16 % 2 ^ 16

  abbrev l : ℕ
  l = a % 2 ^ 16 / count_size

  abbrev HasPage : CountsPagesL2 → Type 0
  HasPage t = is_some (page_at t h m) ≡ true

  -- The tables after a loop over them that maps segments.
  abbrev Extended : List CountsPagesL2 → Option (List CountsPagesL2) → Type 0
  Extended ts r =
      (ts' : List CountsPagesL2) × (r ≡ some ts')
      × (length ts' ≡ length ts)
      × All HasPage ts'
      × (total (own_count a) ts' ≡ total (own_count a) ts)

  each_table-Extended :
      (infos : List DlPhdrInfo) (ts : List CountsPagesL2)
      → ArePlaced infos
      → All (λ t. (is_in_segment a infos ≡ true) ⊎ (get_count t a ≢ some Counter.unknown)) ts
      → Extended ts (each_table (allocate_page_tables infos) ts)
  unfolding each_table
  each_table-Extended infos [] placed due = ([], refl, refl, tt, refl)
  each_table-Extended infos (t ∷ ts) placed due =
      let (t', e, k) = allocate_page_tables-Maps infos t placed in
      let (ts', f, n, pages, sum) = each_table-Extended infos ts placed due.1 in
      (
        t' ∷ ts',
        ap₂ (λ x y. x >>= λ t'. y >>= λ ts'. some (t' ∷ ts')) e f,
        ap suc n,
        (known-page a t' small (k a small due.0), pages),
        ap₂ ◌+◌ sum (allocate_page_tables-Keeps infos t t' e (own_count a)),
      )

  dlopen_on-Extended :
      (loaded : List DlPhdrInfo) (ts : List CountsPagesL2)
      → ArePlaced loaded
      → All HasPage ts
      → Extended ts (dlopen_on loaded ts)
  unfolding dlopen_on
  dlopen_on-Extended loaded ts placed pages =
      rw (allocate_page_tables_on-each_table loaded ts)
        (each_table-Extended loaded ts placed (known ts pages))
    where
      known :
          (ts : List CountsPagesL2)
          → All HasPage ts
          → All (λ t. (is_in_segment a loaded ≡ true) ⊎ (get_count t a ≢ some Counter.unknown)) ts
      known [] p = tt
      known (t ∷ ts) p = (inr (page-known a t small p.0), known ts p.1)

  funcount_init_on-Extended :
      (page_tables : ℕ) (loaded : List DlPhdrInfo)
      → ArePlaced loaded
      → is_in_segment a loaded ≡ true
      → Extended (replicate page_tables init) (funcount_init_on page_tables loaded)
  unfolding funcount_init_on
  funcount_init_on-Extended page_tables loaded placed inside =
      rw (allocate_page_tables_on-each_table loaded (replicate page_tables init)) (
        each_table-Extended loaded (replicate page_tables init) placed
          (asked (replicate page_tables init)))
    where
      asked :
          (ts : List CountsPagesL2)
          → All (λ t. (is_in_segment a loaded ≡ true) ⊎ (get_count t a ≢ some Counter.unknown)) ts
      asked [] = tt
      asked (t ∷ ts) = (inl inside, asked ts)

  abbrev CountedAll : List Event → List CountsPagesL2 → Option (List CountsPagesL2) → Type 0
  CountedAll es ts r =
      (ts' : List CountsPagesL2) × (r ≡ some ts')
      × (length ts' ≡ length ts)
      × All HasPage ts'
      × (total (own_count a) ts' % 2 ^ 64
          ≡ (total (own_count a) ts + calls_in_group h m l (calls_of es)) % 2 ^ 64)

  events_on-CountedAll :
      (es : List Event) (ts : List CountsPagesL2)
      → All IsPossible es
      → 1 ≤ length ts
      → All HasPage ts
      → CountedAll es ts (events_on es ts)
  unfolding events_on event_on
  events_on-CountedAll [] ts possible some_table pages =
      (ts, refl, refl, pages, ap (λ n. n % 2 ^ 64) (omega arith))
  events_on-CountedAll (calls c ∷ es) ts possible some_table pages =
      let (ts₁, e, n, q, v) =
        enter_on-Counted {h = h} {m = m} {l = l} (omega arith) (omega arith) (omega arith) c ts
          possible.0 some_table pages in
      let (ts₂, f, n₂, r, w) = events_on-CountedAll es ts₁ possible.1 (omega (arith, n)) q in
      (ts₂, ap (λ r. r >>= events_on es) e ∙ f, n₂ ∙ n, r, omega (arith, v, w))
  events_on-CountedAll (opens loaded ∷ es) ts possible some_table pages =
      let (ts₁, e, n, q, v) = dlopen_on-Extended loaded ts possible.0 pages in
      let (ts₂, f, n₂, r, w) = events_on-CountedAll es ts₁ possible.1 (omega (arith, n)) q in
      (ts₂, ap (λ r. r >>= events_on es) e ∙ f, n₂ ∙ n, r, omega (arith, v, w))

  total-init : (n : ℕ) → total (own_count a) (replicate n init) ≡ 0
  unfolding init
  total-init zero = refl
  total-init (suc n) = omega (arith, total-init n)

  length-tables : (n : ℕ) → length (replicate n init) ≡ n
  length-tables zero = refl
  length-tables (suc n) = omega (arith, length-tables n)

-- The report after the events of a program.
unfoldable pub whole_run : ℕ → List DlPhdrInfo → List Event → Option (List CountLine)
whole_run page_tables loaded es = funcount_init_on page_tables loaded >>= λ tables.
    events_on es tables >>= λ tables'. report tables'

-- A program under funcount.cpp with one page table or more, from funcount_init on: funcount_init
-- maps what is loaded, then the program calls functions at 48-bit addresses on any cores and opens
-- libraries in any order, and ends, where the executable segments of the objects that are loaded at
-- the start and after each library end a page in front of 2^48. No assertion fails, and for an
-- address in an executable segment loaded at the start, the lines of the report with the address of
-- its group of 8 bytes have together, modulo 2^64, the number of the calls of functions in the
-- group that the program makes after funcount_init; the calls of constructors that run before it
-- are not counted.
pub whole_run-report :
    (page_tables : ℕ) (loaded : List DlPhdrInfo) (es : List Event) (a : ℕ)
    → 1 ≤ page_tables
    → ArePlaced loaded
    → All IsPossible es
    → a < 2 ^ 48
    → is_in_segment a loaded ≡ true
    → (lines : List CountLine) × (whole_run page_tables loaded es ≡ some lines)
      × (printed (address_of (a / 2 ^ 32) (a / 2 ^ 16 % 2 ^ 16) (a % 2 ^ 16 / count_size)) lines
            % 2 ^ 64
          ≡ calls_in_group
              (a / 2 ^ 32)
              (a / 2 ^ 16 % 2 ^ 16)
              (a % 2 ^ 16 / count_size)
              (calls_of es)
            % 2 ^ 64)
unfolding whole_run enter_all_on
whole_run-report page_tables loaded es a some_table placed possible small inside =
    let (ts, e, n, pages, sum) =
      funcount_init_on-Extended a small page_tables loaded placed inside in
    let sizes = length-tables a small page_tables in
    let (ts', f, n', pages', counted) =
      events_on-CountedAll a small es ts possible (omega (arith, n, sizes)) pages in
    let (lines, g, shown) =
      enter_all_on-report {h = a / 2 ^ 32} {m = a / 2 ^ 16 % 2 ^ 16} {l = a % 2 ^ 16 / count_size}
        [] ts' (omega arith) (omega arith) (omega arith) tt (omega (arith, n, n', sizes)) pages' in
    (
      lines,
      ap (λ r. r >>= λ tables. events_on es tables >>= λ tables'. report tables') e
          ∙ ap (λ r. r >>= λ tables'. report tables') f
          ∙ g,
      omega (arith, shown, counted, sum, total-init a small page_tables),
    )
