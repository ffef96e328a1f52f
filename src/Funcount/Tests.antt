-- ===== src/Funcount/Tests.antt =====
-- One page of counts, and the theorems at it.
use funtrace.Funcount.Segments.{DlPhdrInfo}
use funtrace.Funcount.Whole.{Event, calls, opens}
use funtrace.Funcount.Text.{funcount_procmaps, counts}
use funtrace.Funcount.Printed.{read_lines}
use funtrace.Funcount.Filed.{whole_file, whole_file-report}
use funtrace.Funcount.Report.{CountLine}
use funtrace.Funcount.Exit.{printed}
use funtrace.Funcount.Tables.{enter_all_on, report, enter_all_on-report}
use funtrace.Prelude.{
  ℕ, ◌++◌, length, ◌>>=◌, none, ◌==◌, if◌then◌else◌, List, ◌+◌, ◌%◌, ◌^◌, ◌≡◌, refl, some, [], ◌∷◌,
  arith,
}
use funtrace.Funcount.Address.{address_of, high_bits, mid_bits, low_bits}
use funtrace.Funcount.Counting.{enter_all}
use funtrace.Funcount.{CountsPagesL2, get_count, func_enter}

abbrev one_page : CountsPagesL2
one_page = record { pages_l1 = λ i. some (λ j. some (λ k. 0)); unknown = 0 }

same_group :
    enter_all (0x1000 ∷ 0x1004 ∷ 0x1008 ∷ []) one_page
    ≡ enter_all (0x1000 ∷ 0x1000 ∷ 0x1008 ∷ []) one_page
unfolding enter_all func_enter get_count high_bits mid_bits low_bits
same_group = refl

-- An object at 0x4000 with a readable segment and an executable one.
abbrev loaded : List DlPhdrInfo
loaded =
    record {
      dlpi_addr = 0x4000;
      dlpi_phdr =
          record { p_type = 1; p_flags = 4; p_vaddr = 0; p_memsz = 0x1000 }
          ∷ record { p_type = 1; p_flags = 5; p_vaddr = 0x1000; p_memsz = 0x1000 }
          ∷ [];
    }
    ∷ []

-- The same with a library at 0x70000000.
abbrev opened : List DlPhdrInfo
opened =
    record {
      dlpi_addr = 0x70000000;
      dlpi_phdr = record { p_type = 1; p_flags = 5; p_vaddr = 0; p_memsz = 0x800 } ∷ [];
    }
    ∷ loaded

abbrev events : List Event
events =
    calls (record { func = 0x5010; aux = 1 })
    ∷ opens opened
    ∷ calls (record { func = 0x5014; aux = 2 })
    ∷ calls (record { func = 0x70000010; aux = 2 })
    ∷ []

whole_file-report_example :
    (lines : List CountLine) × (printed (address_of 0 0 0xa02) lines % 2 ^ 64 ≡ 2)
    × ((text : List ℕ) × (whole_file 2 loaded events (some (b'm' ∷ []))
          ≡ some (funcount_procmaps ++ (b'm' ∷ (counts ++ text))))
        × (read_lines (length lines) text ≡ some lines))
    × (whole_file 2 loaded events none ≡ some funcount_procmaps)
whole_file-report_example =
    whole_file-report 2 loaded events (b'm' ∷ []) 0x5010 (omega arith)
      ((λ e. cc, ((λ e. omega arith), tt)), tt)
      (
        omega arith,
        (
          (((λ e. omega arith), tt), ((λ e. cc, ((λ e. omega arith), tt)), tt)),
          (omega arith, (omega arith, tt)),
        ),
      )
      (omega arith) refl

-- A table with one page, at 0x10000, where the second group was called twice.
abbrev called : CountsPagesL2
called = record {
  pages_l1 = λ i.
      if i == 0
      then some (λ j. if j == 1 then some (λ k. if k == 1 then 2 else 0) else none)
      else none;
  unknown = 0;
}

enter_all_on-report_example :
    (lines : List CountLine) × (enter_all_on
          (record { func = 0x10008; aux = 5 } ∷ record { func = 0x1000c; aux = 2 } ∷ [])
          (one_page ∷ called ∷ [])
        >>= (λ tables. report tables)
      ≡ some lines)
    × (printed (address_of 0 1 1) lines % 2 ^ 64 ≡ (2 + 2) % 2 ^ 64)
enter_all_on-report_example =
    enter_all_on-report
      (record { func = 0x10008; aux = 5 } ∷ record { func = 0x1000c; aux = 2 } ∷ [])
      (one_page ∷ called ∷ []) (omega arith) (omega arith) (omega arith)
      (omega arith, (omega arith, tt)) (omega arith) (refl, (refl, tt))
