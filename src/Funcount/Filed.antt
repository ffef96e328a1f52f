-- ===== src/Funcount/Filed.antt =====
-- The file that a program under funcount.cpp leaves behind.
use funtrace.Prelude.{
  ℕ, zero, suc, ◌/◌, ◌%◌, ◌^◌, ◌≤◌, ◌<◌, ◌≡◌, refl, sym, subst, true, Option, none, some, List, [],
  ◌∷◌, ◌++◌, All, arith, ◌>>=◌, replicate, length,
}
use mathlib.Core.Option.{some-injective}
use funtrace.Funcount.Address.{address_of}
use funtrace.Funcount.Segments.{DlPhdrInfo, is_in_segment, allocate_page_tables}
use funtrace.Funcount.Opened.{ArePlaced}
use funtrace.Funcount.Kept.{allocate_page_tables-Keeps}
use funtrace.Funcount.Loaded.{
  each_table, funcount_init_on, dlopen_on, allocate_page_tables_on,
  allocate_page_tables_on-each_table,
}
use funtrace.Funcount.Exit.{printed}
use funtrace.Funcount.Report.{CountLine}
use funtrace.Funcount.Tables.{enter_at, enter_on, calls_in_group, report}
use funtrace.Funcount.Text.{funcount_procmaps, counts, report_file}
use funtrace.Funcount.Printed.{read_lines, report_file-lines}
use funtrace.Funcount.Small.{
  IsBounded, Leaves, Leaves-some, Leaves-then, added-IsBounded, report-IsSmall,
}
use funtrace.Funcount.Whole.{
  Event, calls, opens, event_on, events_on, IsPossible, calls_of, whole_run, whole_run-report,
}
use funtrace.Funcount.{CountsPagesL2, Counter, init, func_enter, get_count, add_to, count_size}

-- Each table counts in numbers of 64 bits.
abbrev AreBounded : List CountsPagesL2 → Type 0
AreBounded ts = All IsBounded ts

each_table-AreBounded :
    (infos : List DlPhdrInfo) (ts : List CountsPagesL2)
    → AreBounded ts
    → Leaves AreBounded (each_table (allocate_page_tables infos) ts)
unfolding each_table
each_table-AreBounded infos [] b = Leaves-some AreBounded [] tt
each_table-AreBounded infos (t ∷ ts) b =
    by_first (allocate_page_tables infos t) refl (each_table (allocate_page_tables infos) ts)
      (each_table-AreBounded infos ts b.1)
  where
    by_first :
        (o : Option CountsPagesL2)
        → allocate_page_tables infos t ≡ o
        → (r : Option (List CountsPagesL2)) → Leaves AreBounded r
        → Leaves AreBounded (o >>= λ t'. r >>= λ ts'. some (t' ∷ ts'))
    by_first none f r h s' e = absurd (cc e)
    by_first (some t') f none h s' e = absurd (cc e)
    by_first (some t') f (some ts') h s' e = subst AreBounded (some-injective _ _ e) (
      λ h m l.
          subst (λ n. n < 2 ^ 64)
            (sym (allocate_page_tables-Keeps infos t t' f (Counter.count h m l))) (b.0 h m l),
      h ts' refl,
    )

enter_at-AreBounded :
    (i func : ℕ) (ts : List CountsPagesL2) → AreBounded ts → Leaves AreBounded (enter_at i func ts)
unfolding enter_at func_enter
enter_at-AreBounded i func [] b = λ s' e. absurd (cc e)
enter_at-AreBounded zero func (t ∷ ts) b =
    by_first (get_count t func >>= λ counter. some (add_to counter 1 t))
      (added-IsBounded (get_count t func) 1 t b.0)
  where
    by_first :
        (o : Option CountsPagesL2)
        → Leaves IsBounded o
        → Leaves AreBounded (o >>= λ t'. some (t' ∷ ts))
    by_first none h s' e = absurd (cc e)
    by_first (some t') h s' e = subst AreBounded (some-injective _ _ e) (h t' refl, b.1)
enter_at-AreBounded (suc i) func (t ∷ ts) b =
    Leaves-then AreBounded (enter_at i func ts) (λ ts'. some (t ∷ ts'))
      (enter_at-AreBounded i func ts b.1) (λ ts' h. Leaves-some AreBounded (t ∷ ts') (b.0, h))

event_on-AreBounded :
    (e : Event) (ts : List CountsPagesL2) → AreBounded ts → Leaves AreBounded (event_on e ts)
unfolding event_on enter_on dlopen_on
event_on-AreBounded (calls c) ts b = enter_at-AreBounded _ c.func ts b
event_on-AreBounded (opens loaded) ts b =
    rw (allocate_page_tables_on-each_table loaded ts) (each_table-AreBounded loaded ts b)

events_on-AreBounded :
    (es : List Event) (ts : List CountsPagesL2)
    → AreBounded ts
    → Leaves AreBounded (events_on es ts)
unfolding events_on
events_on-AreBounded [] ts b = Leaves-some AreBounded ts b
events_on-AreBounded (e ∷ es) ts b =
    Leaves-then AreBounded (event_on e ts) (events_on es) (event_on-AreBounded e ts b)
      (λ ts' h. events_on-AreBounded es ts' h)

init-AreBounded : (n : ℕ) → AreBounded (replicate n init)
unfolding init
init-AreBounded zero = tt
init-AreBounded (suc n) = (λ h m l. omega arith, init-AreBounded n)

tables_of-AreBounded :
    (page_tables : ℕ) (loaded : List DlPhdrInfo) (es : List Event)
    → Leaves AreBounded (funcount_init_on page_tables loaded >>= λ ts. events_on es ts)
unfolding funcount_init_on
tables_of-AreBounded page_tables loaded es =
    Leaves-then AreBounded (allocate_page_tables_on loaded (replicate page_tables init))
      (events_on es)
      (rw (allocate_page_tables_on-each_table loaded (replicate page_tables init))
        (each_table-AreBounded loaded (replicate page_tables init) (init-AreBounded page_tables)))
      (λ ts h. events_on-AreBounded es ts h)

-- The file after the events of a program, where the memory map is opened at exit or is not.
unfoldable pub whole_file : ℕ → List DlPhdrInfo → List Event → Option (List ℕ) → Option (List ℕ)
whole_file page_tables loaded es maps = funcount_init_on page_tables loaded >>= λ tables.
    events_on es tables >>= λ tables'. report_file maps tables'

-- The file of the tables that report some lines.
abbrev Filed : (Option (List ℕ) → Option (List ℕ)) → List ℕ → List CountLine → Type 0
Filed file maps lines =
    ((text : List ℕ) × (file (some maps) ≡ some (funcount_procmaps ++ (maps ++ (counts ++ text))))
      × (read_lines (length lines) text ≡ some lines))
    × (file none ≡ some funcount_procmaps)

tables-Filed :
    (maps : List ℕ) (lines : List CountLine) (ts : List CountsPagesL2)
    → AreBounded ts
    → report ts ≡ some lines
    → Filed (λ m. report_file m ts) maps lines
unfolding report
tables-Filed maps lines [] b e = absurd (cc e)
tables-Filed maps lines (t ∷ ts) b e =
    report_file-lines maps (t ∷ ts) lines e (report-IsSmall t ts b.0 lines e)

whole_run-Filed :
    (page_tables : ℕ) (loaded : List DlPhdrInfo) (es : List Event) (maps : List ℕ)
    (lines : List CountLine)
    → whole_run page_tables loaded es ≡ some lines
    → Filed (whole_file page_tables loaded es) maps lines
unfolding whole_run whole_file
whole_run-Filed page_tables loaded es maps lines e =
    by_init (funcount_init_on page_tables loaded) (tables_of-AreBounded page_tables loaded es) e
  where
    by_events :
        (o : Option (List CountsPagesL2))
        → Leaves AreBounded o
        → (o >>= λ ts. report ts) ≡ some lines
        → Filed (λ m. o >>= λ ts. report_file m ts) maps lines
    by_events none h e = absurd (cc e)
    by_events (some ts) h e = tables-Filed maps lines ts (h ts refl) e

    by_init :
        (o : Option (List CountsPagesL2))
        → Leaves AreBounded (o >>= λ ts. events_on es ts)
        → (o >>= λ ts. events_on es ts >>= λ ts'. report ts') ≡ some lines
        → Filed (λ m. o >>= λ ts. events_on es ts >>= λ ts'. report_file m ts') maps lines
    by_init none h e = absurd (cc e)
    by_init (some ts) h e = by_events (events_on es ts) h e

-- A program under funcount.cpp with one page table or more, from funcount_init on: funcount_init
-- maps what is loaded, then the program calls functions at 48-bit addresses on any cores and opens
-- libraries in any order, and ends, where the executable segments of the objects that are loaded at
-- the start and after each library end a page in front of 2^48. No assertion fails, and there are
-- lines such that, for an address in an executable segment loaded at the start, those with the
-- address of its group of 8 bytes have together, modulo 2^64, the number of the calls of functions
-- in the group that the program makes after funcount_init; the calls of constructors that run
-- before it are not counted. With the memory map the file is the text FUNCOUNT and PROCMAPS, the
-- map, COUNTS, and a text that reads back as these lines; where the map cannot be opened, the file
-- ends in front of it, without any count.
pub whole_file-report :
    (page_tables : ℕ) (loaded : List DlPhdrInfo) (es : List Event) (maps : List ℕ) (a : ℕ)
    → 1 ≤ page_tables
    → ArePlaced loaded
    → All IsPossible es
    → a < 2 ^ 48
    → is_in_segment a loaded ≡ true
    → (lines : List CountLine) × (printed
            (address_of (a / 2 ^ 32) (a / 2 ^ 16 % 2 ^ 16) (a % 2 ^ 16 / count_size))
            lines
          % 2 ^ 64
        ≡ calls_in_group (a / 2 ^ 32) (a / 2 ^ 16 % 2 ^ 16) (a % 2 ^ 16 / count_size) (calls_of es)
          % 2 ^ 64)
      × ((text : List ℕ) × (whole_file page_tables loaded es (some maps)
            ≡ some (funcount_procmaps ++ (maps ++ (counts ++ text))))
          × (read_lines (length lines) text ≡ some lines))
      × (whole_file page_tables loaded es none ≡ some funcount_procmaps)
whole_file-report page_tables loaded es maps a some_table placed possible small inside =
    let (lines, e, shown) =
      whole_run-report page_tables loaded es a some_table placed possible small inside in
    let (with_map, without) = whole_run-Filed page_tables loaded es maps lines e in
    (lines, shown, with_map, without)
