-- ===== src/Funcount/Tables.antt =====
-- The calls of a program on several cores, where funcount.cpp is built with a page table for each.
use funtrace.Prelude.{
  ℕ, zero, suc, ◌+◌, ◌/◌, ◌%◌, ◌^◌, ◌≤◌, ◌<◌, ◌≡◌, refl, ap, ◌∙◌, Bool, true, ◌&&◌, Option, none,
  some, List, [], ◌∷◌, arith, ◌==◌, if◌then◌else◌, ◌>>=◌, All, bit_and, length,
}
use funtrace.Funcount.Address.{address_of}
use funtrace.Funcount.Counting.{is_some, value-add_to, page_at-add_to, counter_of, func_enter-eq}
use funtrace.Funcount.Mapped.{page_of}
use funtrace.Funcount.Exit.{total, same-place, wrapped, printed, merge_all-printed}
use funtrace.Funcount.Report.{merge_all, CountLine, count_lines}
use funtrace.Funcount.{CountsPagesL2, page_at, value, Counter, add_to, func_enter, count_size}

-- The core, of the number that `__rdtscp` stores.
unfoldable pub core_num : ℕ → ℕ
core_num aux = bit_and aux 0xfff

-- `__cyg_profile_func_enter` on the table of an index. There is none past the end.
unfoldable pub enter_at : ℕ → ℕ → List CountsPagesL2 → Option (List CountsPagesL2)
enter_at i func [] = none
enter_at zero func (t ∷ ts) = func_enter func t >>= λ t'. some (t' ∷ ts)
enter_at (suc i) func (t ∷ ts) = enter_at i func ts >>= λ ts'. some (t ∷ ts')

-- A call: its address, and what `__rdtscp` stores.
pub record Call : Type 0 where
  pub func : ℕ
  pub aux : ℕ

unfoldable pub enter_on : Call → List CountsPagesL2 → Option (List CountsPagesL2)
enter_on c tables =
    enter_at (if length tables == 1 then 0 else core_num c.aux % length tables) c.func tables

unfoldable pub enter_all_on : List Call → List CountsPagesL2 → Option (List CountsPagesL2)
enter_all_on [] tables = some tables
enter_all_on (c ∷ cs) tables = enter_on c tables >>= λ tables'. enter_all_on cs tables'

-- The calls of functions in a group of 8 bytes.
abbrev pub is_in_group : ℕ → ℕ → ℕ → ℕ → Bool
is_in_group h m l func =
    func / 2 ^ 32 == h && (func / 2 ^ 16 % 2 ^ 16 == m && func % 2 ^ 16 / count_size == l)

abbrev pub calls_in_group : ℕ → ℕ → ℕ → List Call → ℕ
calls_in_group h m l [] = 0
calls_in_group h m l (c ∷ cs) =
    (if is_in_group h m l c.func then 1 else 0) + calls_in_group h m l cs

module _ {h m l : ℕ} (in_high : h < 2 ^ 16) (in_mid : m < 2 ^ 16) (in_page : l < 2 ^ 13) where
  abbrev pub Mapped : CountsPagesL2 → Type 0
  Mapped t = is_some (page_at t h m) ≡ true

  abbrev pub added : ℕ → ℕ
  added func = if is_in_group h m l func then 1 else 0

  func_enter-value :
      (func : ℕ) (t : CountsPagesL2)
      → func < 2 ^ 48
      → Mapped t
      → (t' : CountsPagesL2) × (func_enter func t ≡ some t')
        × Mapped t'
        × (value t' (Counter.count h m l) % 2 ^ 64
            ≡ (value t (Counter.count h m l) + added func) % 2 ^ 64)
  func_enter-value func t small p = (
    add_to (counter_of t func) 1 t,
    func_enter-eq func t small,
    page_at-add_to (page_of t func) (func / 2 ^ 32) (func / 2 ^ 16 % 2 ^ 16)
          (func % 2 ^ 16 / count_size) 1 h m t refl
        ∙ p,
    ground (
      arith,
      value-add_to (counter_of t func) (Counter.count h m l) 1 t,
      same-place in_high in_mid in_page (page_of t func) (func / 2 ^ 32) (func / 2 ^ 16 % 2 ^ 16)
          (func % 2 ^ 16 / count_size) t refl p,
    ),
  )

  -- The tables after a call, with the sum of the counts.
  abbrev pub Counted : ℕ → List CountsPagesL2 → Option (List CountsPagesL2) → Type 0
  Counted k ts r =
      (ts' : List CountsPagesL2) × (r ≡ some ts')
      × (length ts' ≡ length ts)
      × All Mapped ts'
      × (total (Counter.count h m l) ts' % 2 ^ 64 ≡ (total (Counter.count h m l) ts + k) % 2 ^ 64)

  enter_at-Counted :
      (i func : ℕ) (ts : List CountsPagesL2)
      → func < 2 ^ 48
      → i < length ts
      → All Mapped ts
      → Counted (added func) ts (enter_at i func ts)
  unfolding enter_at
  enter_at-Counted i func [] small lt p = absurd (omega arith)
  enter_at-Counted zero func (t ∷ ts) small lt p =
      let (t', e, q, v) = func_enter-value func t small p.0 in
      (t' ∷ ts, ap (λ r. r >>= λ t'. some (t' ∷ ts)) e, refl, (q, p.1), omega (arith, v))
  enter_at-Counted (suc i) func (t ∷ ts) small lt p =
      let (ts', e, n, q, v) = enter_at-Counted i func ts small (omega arith) p.1 in
      (t ∷ ts', ap (λ r. r >>= λ ts'. some (t ∷ ts')) e, ap suc n, (p.0, q), omega (arith, v))

  pub enter_on-Counted :
      (c : Call) (ts : List CountsPagesL2)
      → c.func < 2 ^ 48
      → 1 ≤ length ts
      → All Mapped ts
      → Counted (added c.func) ts (enter_on c ts)
  unfolding enter_on
  enter_on-Counted c ts small some_table p = enter_at-Counted _ c.func ts small (ground arith) p

  enter_all_on-Counted :
      (cs : List Call) (ts : List CountsPagesL2)
      → All (λ c. c.func < 2 ^ 48) cs
      → 1 ≤ length ts
      → All Mapped ts
      → Counted (calls_in_group h m l cs) ts (enter_all_on cs ts)
  unfolding enter_all_on
  enter_all_on-Counted [] ts small some_table p = (ts, refl, refl, p, ap wrapped (omega arith))
  enter_all_on-Counted (c ∷ cs) ts small some_table p =
      let (ts₁, e, n, q, v) = enter_on-Counted c ts small.0 some_table p in
      let (ts₂, f, n₂, r, w) = enter_all_on-Counted cs ts₁ small.1 (omega (arith, n)) q in
      (
        ts₂,
        ap (λ r. r >>= λ tables'. enter_all_on cs tables') e ∙ f,
        n₂ ∙ n,
        r,
        omega (arith, v, w),
      )

-- What the destructors write, the first table being destroyed last.
unfoldable pub report : List CountsPagesL2 → Option (List CountLine)
report [] = none
report (t ∷ ts) = merge_all ts t >>= λ last. count_lines last

-- Where each of the page tables, of which there is at least one, has the page of a group of 8 bytes:
-- the calls of functions at 48-bit addresses, on any cores, and the report at exit all succeed, and
-- the lines of the report with the group's address have together, modulo 2^64, what the tables had
-- counted for the group before, and one for each of the calls of a function in it.
pub enter_all_on-report :
    {h m l : ℕ} (calls : List Call) (tables : List CountsPagesL2)
    → h < 2 ^ 16
    → m < 2 ^ 16
    → l < 2 ^ 13
    → All (λ c. c.func < 2 ^ 48) calls
    → 1 ≤ length tables
    → All (λ t. is_some (page_at t h m) ≡ true) tables
    → (lines : List CountLine) × (enter_all_on calls tables >>= (λ tables'. report tables')
        ≡ some lines)
      × (printed (address_of h m l) lines % 2 ^ 64
          ≡ (total (Counter.count h m l) tables + calls_in_group h m l calls) % 2 ^ 64)
unfolding report
enter_all_on-report {h} {m} {l} calls tables a b c small some_table p =
    let (tables', e, n, q, v) = enter_all_on-Counted a b c calls tables small some_table p in
    let (lines, f, w) = reported tables' (omega (arith, n)) q in
    (lines, ap (λ r. r >>= λ tables'. report tables') e ∙ f, w ∙ v)
  where
    reported :
        (ts : List CountsPagesL2)
        → 1 ≤ length ts
        → All (λ t. is_some (page_at t h m) ≡ true) ts
        → (lines : List CountLine) × (report ts ≡ some lines)
          × (printed (address_of h m l) lines % 2 ^ 64 ≡ total (Counter.count h m l) ts % 2 ^ 64)
    reported [] lt q = absurd (omega arith)
    reported (t ∷ ts) lt q = merge_all-printed t ts a b c q.0
