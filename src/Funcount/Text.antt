-- ===== src/Funcount/Text.antt =====
-- The file that funcount.cpp writes at exit: the texts around the counts, and the numbers of a line.
use funtrace.Prelude.{
  ℕ, zero, suc, ◌+◌, ◌/◌, ◌%◌, Option, none, some, List, [], ◌∷◌, ◌++◌, ◌==◌, if◌then◌else◌, ◌>>=◌,
}
use funtrace.Format.Procmaps.{hex}
use funtrace.Funcount.Report.{CountLine, merge_all}
use funtrace.Funcount.Tables.{report}
use funtrace.Funcount.{CountsPagesL2}

-- `std::dec`: 20 digits are enough for 64 bits.
unfoldable pub dec_onto : ℕ → ℕ → List ℕ → List ℕ
dec_onto zero n s = s
dec_onto (suc fuel) n s =
    let rest = dec_onto fuel (n / 10) ((b'0' + n % 10) ∷ s) in
    if n / 10 == 0 then (b'0' + n % 10) ∷ s else rest

abbrev pub dec : ℕ → List ℕ
dec n = dec_onto 20 n []

-- "FUNCOUNT\nPROCMAPS\n" and "COUNTS\n"
abbrev pub funcount_procmaps : List ℕ
funcount_procmaps =
    b'F' ∷ b'U' ∷ b'N' ∷ b'C' ∷ b'O' ∷ b'U' ∷ b'N' ∷ b'T' ∷ 10 ∷ b'P' ∷ b'R' ∷ b'O' ∷ b'C' ∷ b'M'
    ∷ b'A' ∷ b'P' ∷ b'S' ∷ 10 ∷ []

abbrev pub counts : List ℕ
counts = b'C' ∷ b'O' ∷ b'U' ∷ b'N' ∷ b'T' ∷ b'S' ∷ 10 ∷ []

abbrev pub line_text : CountLine → List ℕ
line_text line = (b'0' ∷ b'x' ∷ hex line.address) ++ (32 ∷ (dec line.count ++ (10 ∷ [])))

unfoldable pub lines_text : List CountLine → List ℕ
lines_text [] = []
lines_text (line ∷ lines) = line_text line ++ lines_text lines

-- The destructors of all tables. Where the memory map cannot be opened, that of the first one
-- returns before the counts.
unfoldable pub report_file : Option (List ℕ) → List CountsPagesL2 → Option (List ℕ)
report_file none [] = none
report_file none (t ∷ ts) = merge_all ts t >>= λ last. some funcount_procmaps
report_file (some maps) tables =
    report tables >>= λ lines. some (funcount_procmaps ++ (maps ++ (counts ++ lines_text lines)))
