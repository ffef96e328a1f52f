-- ===== src/Funcount/Printed.antt =====
-- The lines of funcount's report, read back.
use funtrace.Prelude.{
  ℕ, zero, suc, ◌+◌, ◌-◌, ◌*◌, ◌/◌, ◌%◌, ◌^◌, ◌≤◌, ◌<◌, ◌≡◌, refl, ap, ap₂, sym, ◌∙◌, inl, inr,
  false, Option, none, some, List, [], ◌∷◌, ◌++◌, All, All-append, arith, ◌==◌, if◌then◌else◌,
  ◌>>=◌, drop, Bool-cases, append_assoc, length,
}
use funtrace.Format.Procmaps.{hex_digit, hex_onto, hex, read_hex, read_hex-hex}
use funtrace.Funcount.Report.{CountLine, merge_all, count_lines}
use funtrace.Funcount.Tables.{report}
use funtrace.Funcount.{CountsPagesL2}
use funtrace.Funcount.Text.{
  dec_onto, dec, funcount_procmaps, counts, line_text, lines_text, report_file,
}

-- The number that decimal digits write.
abbrev pub read_dec : ℕ → List ℕ → ℕ
read_dec n [] = n
read_dec n (c ∷ s) = read_dec (n * 10 + (c - b'0')) s

read_dec-digit :
    (m n : ℕ) (s : List ℕ) → m ≡ n / 10 → read_dec m ((b'0' + n % 10) ∷ s) ≡ read_dec n s
read_dec-digit m n s e = ap (λ k. read_dec k s) (omega (arith, e))

read_dec-dec_onto :
    (fuel n : ℕ) (s : List ℕ)
    → n < 10 ^ fuel
    → 1 ≤ fuel
    → read_dec 0 (dec_onto fuel n s) ≡ read_dec n s
unfolding dec_onto
read_dec-dec_onto zero n s h k = absurd (omega arith)
read_dec-dec_onto (suc fuel) n s h k = elim (Bool-cases (n / 10 == 0)) [
  | inl e ↦ rw e (read_dec-digit 0 n s (ground arith))
  | inr e ↦ rw e (
      read_dec-dec_onto fuel (n / 10) ((b'0' + n % 10) ∷ s) below
        (some_left fuel below (ground arith))
      ∙ read_dec-digit (n / 10) n s refl)
]
  where
    below : n / 10 < 10 ^ fuel
    below = omega (arith, h)

    some_left : (fuel : ℕ) → n / 10 < 10 ^ fuel → 1 ≤ n / 10 → 1 ≤ fuel
    some_left zero lt pos = absurd (omega arith)
    some_left (suc fuel) lt pos = omega arith

read_dec-dec : (n : ℕ) → n < 2 ^ 64 → read_dec 0 (dec n) ≡ n
read_dec-dec n h = read_dec-dec_onto 20 n [] (omega arith) (omega arith)

-- What stands before a character, and what behind it.
unfoldable pub cut_at : ℕ → List ℕ → List ℕ × List ℕ
cut_at c [] = ([], [])
cut_at c (x ∷ xs) = let rest = cut_at c xs in if x == c then ([], xs) else (x ∷ rest.0, rest.1)

cut_at-append :
    (c : ℕ) (xs ys : List ℕ) → All (λ x. x == c ≡ false) xs → cut_at c (xs ++ (c ∷ ys)) ≡ (xs, ys)
unfolding cut_at
cut_at-append c [] ys h = ground arith
cut_at-append c (x ∷ xs) ys h = rw h.0 (ap (λ r. (x ∷ r.0, r.1)) (cut_at-append c xs ys h.1))

-- Digits are neither spaces nor ends of lines.
abbrev IsDigit : ℕ → Type 0
IsDigit c = 48 ≤ c

hex_onto-IsDigit : (fuel n : ℕ) (s : List ℕ) → All IsDigit s → All IsDigit (hex_onto fuel n s)
unfolding hex_onto
hex_onto-IsDigit zero n s h = h
hex_onto-IsDigit (suc fuel) n s h = elim (Bool-cases (n / 16 == 0)) [
  | inl e ↦ rw e (ground arith, h)
  | inr e ↦ rw e (hex_onto-IsDigit fuel (n / 16) (hex_digit (n % 16) ∷ s) (ground arith, h))
]

dec_onto-IsDigit : (fuel n : ℕ) (s : List ℕ) → All IsDigit s → All IsDigit (dec_onto fuel n s)
unfolding dec_onto
dec_onto-IsDigit zero n s h = h
dec_onto-IsDigit (suc fuel) n s h = elim (Bool-cases (n / 10 == 0)) [
  | inl e ↦ rw e (omega arith, h)
  | inr e ↦ rw e (dec_onto-IsDigit fuel (n / 10) ((b'0' + n % 10) ∷ s) (omega arith, h))
]

digits_differ : (c : ℕ) → c < 48 → (xs : List ℕ) → All IsDigit xs → All (λ x. x == c ≡ false) xs
digits_differ c lt [] h = tt
digits_differ c lt (x ∷ xs) h = (ground (arith, lt, h.0), digits_differ c lt xs h.1)

-- A line as funcount2sym reads it: an address in hexadecimal digits behind 0x, a space, a count.
unfoldable pub read_line : List ℕ → CountLine
read_line s =
    let fields = cut_at 32 s in
    record { address = read_hex 0 (drop 2 fields.0); count = read_dec 0 fields.1 }

unfoldable pub read_lines : ℕ → List ℕ → Option (List CountLine)
read_lines fuel [] = some []
read_lines zero (c ∷ s) = none
read_lines (suc fuel) (c ∷ s) =
    let line = cut_at 10 (c ∷ s) in
    read_lines fuel line.1 >>= λ lines. some (read_line line.0 ∷ lines)

abbrev pub IsSmall : CountLine → Type 0
IsSmall line = (line.address < 2 ^ 64) × (line.count < 2 ^ 64)

-- A line without its end.
abbrev body : CountLine → List ℕ
body line = (b'0' ∷ b'x' ∷ hex line.address) ++ (32 ∷ dec line.count)

line_text-body :
    (line : CountLine) (rest : List ℕ) → line_text line ++ rest ≡ body line ++ (10 ∷ rest)
line_text-body line rest =
    append_assoc (b'0' ∷ b'x' ∷ hex line.address) (32 ∷ (dec line.count ++ (10 ∷ []))) rest
    ∙ ap (λ r. (b'0' ∷ b'x' ∷ hex line.address) ++ (32 ∷ r))
        (append_assoc (dec line.count) (10 ∷ []) rest)
    ∙ sym (append_assoc (b'0' ∷ b'x' ∷ hex line.address) (32 ∷ dec line.count) (10 ∷ rest))

address-IsDigit : (n : ℕ) → All IsDigit (b'0' ∷ b'x' ∷ hex n)
address-IsDigit n = (omega arith, (omega arith, hex_onto-IsDigit 16 n [] tt))

read_line-body : (line : CountLine) → IsSmall line → read_line (body line) ≡ line
unfolding read_line
read_line-body line h =
    rw
      (cut_at-append 32 (b'0' ∷ b'x' ∷ hex line.address) (dec line.count) (
        digits_differ 32 (omega arith) (b'0' ∷ b'x' ∷ hex line.address)
          (address-IsDigit line.address)))
      (ap₂ (λ a n. record { address = a; count = n }) (read_hex-hex line.address h.0)
        (read_dec-dec line.count h.1))

body_differs : (line : CountLine) → All (λ x. x == 10 ≡ false) (body line)
body_differs line =
    All-append (λ x. x == 10 ≡ false) (b'0' ∷ b'x' ∷ hex line.address) (32 ∷ dec line.count)
      (digits_differ 10 (omega arith) (b'0' ∷ b'x' ∷ hex line.address)
        (address-IsDigit line.address))
      (refl, digits_differ 10 (omega arith) (dec line.count) (dec_onto-IsDigit 20 line.count [] tt))

-- The lines that funcount writes after COUNTS, of addresses and counts of 64 bits, are read back as
-- they are.
read_lines-lines_text :
    (lines : List CountLine)
    → All IsSmall lines
    → read_lines (length lines) (lines_text lines) ≡ some lines
unfolding read_lines lines_text
read_lines-lines_text [] h = refl
read_lines-lines_text (line ∷ lines) h =
    ap (read_lines (suc (length lines))) (line_text-body line (lines_text lines))
    ∙ rw (cut_at-append 10 (body line) (lines_text lines) (body_differs line)) (
        ap₂ (λ r l. r >>= λ lines. some (l ∷ lines)) (read_lines-lines_text lines h.1)
          (read_line-body line h.0))

merged-header :
    (o : Option CountsPagesL2) (lines : List CountLine)
    → (o >>= λ last. count_lines last) ≡ some lines
    → (o >>= λ last. some funcount_procmaps) ≡ some funcount_procmaps
merged-header none lines e = absurd (cc e)
merged-header (some last) lines e = refl

-- Where the destructors of the tables report some lines, of addresses and counts of 64 bits: with
-- the memory map, the file has the text FUNCOUNT and PROCMAPS, the map, COUNTS, and a text that reads
-- back as the lines; where the memory map cannot be opened, it ends in front of the map, without any
-- count.
pub report_file-lines :
    (maps : List ℕ) (tables : List CountsPagesL2) (lines : List CountLine)
    → report tables ≡ some lines
    → All IsSmall lines
    → ((text : List ℕ) × (report_file (some maps) tables
          ≡ some (funcount_procmaps ++ (maps ++ (counts ++ text))))
        × (read_lines (length lines) text ≡ some lines))
      × (report_file none tables ≡ some funcount_procmaps)
unfolding report_file report
report_file-lines maps [] lines e small = absurd (cc e)
report_file-lines maps (t ∷ ts) lines e small = (
  (
    lines_text lines,
    ap (λ r. r >>= λ lines. some (funcount_procmaps ++ (maps ++ (counts ++ lines_text lines)))) e,
    read_lines-lines_text lines small,
  ),
  merged-header (merge_all ts t) lines e,
)
