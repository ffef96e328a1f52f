-- ===== src/Funcount.antt =====
-- The page tables of funcount.cpp, which count the calls of each function by its address. A table
-- maps a number to a table of the next level or to nothing; `none` of a whole operation is the
-- failed assertion that an address has more than 48 bits.
pub mod Address
pub mod Mapped
pub mod Counting
pub mod Segments
pub mod Opened
pub mod Report
pub mod Visits
pub mod Exit
pub mod Tables
pub mod Kept
pub mod Loaded
pub mod Text
pub mod Printed
pub mod Small
pub mod Whole
pub mod Filed
mod Tests
use funtrace.Prelude.{
  ℕ, zero, suc, ◌+◌, ◌-◌, ◌*◌, ◌/◌, ◌%◌, ◌^◌, Bool, true, false, Option, none, some, List, [], ◌∷◌,
  ltb, leb, ◌==◌, if◌then◌else◌, ◌>>=◌, bit_and, lognot,
}
use Address.{page_size, page_bits_mask, high_bits, mid_bits, low_bits}

-- `sizeof(count_t)`
abbrev pub count_size : ℕ
count_size = 8

-- `CountsPage` and `CountsPagesL1`
abbrev pub CountsPage : Type 0
CountsPage = ℕ → ℕ

abbrev pub CountsPagesL1 : Type 0
CountsPagesL1 = ℕ → Option CountsPage

pub record CountsPagesL2 : Type 0 where
  pub pages_l1 : ℕ → Option CountsPagesL1
  pub unknown : ℕ

abbrev pub new_page : CountsPage
new_page i = 0

abbrev pub new_pages : CountsPagesL1
new_pages i = none

-- A new value at an index of a table.
abbrev pub put {ℓ} : {A : Type ℓ} → ℕ → A → (ℕ → A) → ℕ → A
put i a f = λ j. if j == i then a else f j

abbrev pub or_new {ℓ} : {A : Type ℓ} → Option A → A → A
or_new none a = a
or_new (some b) a = b

pub init : CountsPagesL2
init = record { pages_l1 = λ i. none; unknown = 0 }

-- The body of the loop of `allocate_range`: the tables of an address, made where they are missing.
unfoldable pub allocate_page : ℕ → CountsPagesL2 → Option CountsPagesL2
allocate_page address t = high_bits address >>= λ high.
    let pages = or_new (t.pages_l1 high) new_pages in
    let mid = mid_bits address in
    let page = or_new (pages mid) new_page in
    some (record t { pages_l1 = put high (some (put mid (some page) pages)) t.pages_l1 })

unfoldable pub allocate_from : ℕ → ℕ → ℕ → CountsPagesL2 → Option CountsPagesL2
allocate_from zero address end t = some t
allocate_from (suc fuel) address end t =
    if leb address end
    then (allocate_page address t >>= λ t'.
        allocate_from fuel ((address + page_size) % 2 ^ 64) end t')
    else some t

unfoldable pub range_start : ℕ → ℕ
range_start base = bit_and base (lognot page_bits_mask)

unfoldable pub range_end : ℕ → ℕ → ℕ
range_end base size = bit_and ((base + size + page_size - 1) % 2 ^ 64) (lognot page_bits_mask)

-- One round for each page from the start to the end is fuel enough.
unfoldable pub allocate_range : ℕ → ℕ → CountsPagesL2 → Option CountsPagesL2
unfolding range_start range_end
allocate_range base size t =
    allocate_from ((range_end base size - range_start base) / page_size + 1) (range_start base)
      (range_end base size) t

-- What a reference to a count refers to.
pub data Counter : Type 0 where
  unknown : Counter
  count : ℕ → ℕ → ℕ → Counter

-- The page of two indices, if there is one.
abbrev pub page_at : CountsPagesL2 → ℕ → ℕ → Option CountsPage
page_at t high mid = t.pages_l1 high >>= λ pages. pages mid

-- A missing page refers to the count of unknown calls.
abbrev pub counter_at : Option CountsPage → ℕ → ℕ → ℕ → Counter
counter_at none high mid lo = Counter.unknown
counter_at (some page) high mid lo = Counter.count high mid lo

unfoldable pub get_count : CountsPagesL2 → ℕ → Option Counter
get_count t address = high_bits address >>= λ high.
    let mid = mid_bits address in
    some (counter_at (page_at t high mid) high mid (low_bits address / count_size))

-- The value of a count, and `count += n` on it (`count_t` is `uint64_t`).
abbrev pub value : CountsPagesL2 → Counter → ℕ
value t Counter.unknown = t.unknown
value t (Counter.count high mid lo) = (or_new (page_at t high mid) new_page) lo

unfoldable pub add_to : Counter → ℕ → CountsPagesL2 → CountsPagesL2
add_to Counter.unknown n t = record t { unknown = (t.unknown + n) % 2 ^ 64 }
add_to (Counter.count high mid lo) n t =
    let pages = or_new (t.pages_l1 high) new_pages in
    let page = or_new (pages mid) new_page in
    record t {
      pages_l1 =
          put high (some (put mid (some (put lo ((page lo + n) % 2 ^ 64) page)) pages)) t.pages_l1;
    }

-- `__cyg_profile_func_enter`, with one page table.
unfoldable pub func_enter : ℕ → CountsPagesL2 → Option CountsPagesL2
func_enter func t = get_count t func >>= λ counter. some (add_to counter 1 t)
