-- ===== src/Funcount/Report.antt =====
-- What `~CountsPagesL2` does with the counts at exit: each page table but the first is added to the
-- first, which is written to funcount.txt.
use funtrace.Prelude.{
  ℕ, zero, suc, ◌+◌, ◌%◌, ◌^◌, Option, none, some, List, [], ◌∷◌, ◌++◌, ◌==◌, if◌then◌else◌, ◌>>=◌,
}
use funtrace.Funcount.Address.{page_size, address_of}
use funtrace.Funcount.{CountsPage, CountsPagesL1, CountsPagesL2, get_count, add_to}

-- `for(i=0; i<n; ++i)` around a body that may fail.
unfoldable pub for_below {ℓ} : {S : Type ℓ} → (ℕ → S → Option S) → ℕ → S → Option S
for_below body zero s = some s
for_below body (suc n) s = for_below body n s >>= λ s'. body n s'

-- `PAGE_SIZE/sizeof(count_t)`
abbrev pub counts_in_page : ℕ
counts_in_page = 2 ^ 13

-- The three loops over a table, with what is done for each count that is not 0.
module _ {ℓ} {S : Type ℓ} (use_count : ℕ → ℕ → S → Option S) where
  unfoldable pub on_count : CountsPage → ℕ → ℕ → ℕ → S → Option S
  on_count page hi mid lo s =
      if page lo == 0 then some s else use_count (address_of hi mid lo) (page lo) s

  unfoldable pub on_page : Option CountsPage → ℕ → ℕ → S → Option S
  on_page none hi mid s = some s
  on_page (some page) hi mid s = for_below (on_count page hi mid) counts_in_page s

  unfoldable pub on_pages : Option CountsPagesL1 → ℕ → S → Option S
  on_pages none hi s = some s
  on_pages (some pages) hi s = for_below (λ mid. on_page (pages mid) hi mid) page_size s

  unfoldable pub for_each_count : CountsPagesL2 → S → Option S
  for_each_count t s = for_below (λ hi. on_pages (t.pages_l1 hi) hi) page_size s

-- `last_page_tab->get_count(address) += count`
unfoldable pub accumulate : ℕ → ℕ → CountsPagesL2 → Option CountsPagesL2
accumulate address count last =
    get_count last address >>= λ counter. some (add_to counter count last)

-- The destructor of a table that is not the first.
unfoldable pub merge_into : CountsPagesL2 → CountsPagesL2 → Option CountsPagesL2
merge_into t last = for_each_count accumulate t last >>= λ last'. some (
    if t.unknown == 0
    then last'
    else record last' { unknown = (last'.unknown + t.unknown) % 2 ^ 64 })

-- The destructors of the tables after the first, the last of them first.
unfoldable pub merge_all : List CountsPagesL2 → CountsPagesL2 → Option CountsPagesL2
merge_all [] last = some last
merge_all (t ∷ ts) last = merge_all ts last >>= λ last'. merge_into t last'

-- A line of the counts in the report.
pub record CountLine : Type 0 where
  pub address : ℕ
  pub count : ℕ

unfoldable pub print_count : ℕ → ℕ → List CountLine → Option (List CountLine)
print_count address count out = some (out ++ record { address = address; count = count } ∷ [])

-- The lines that the first table's destructor writes after COUNTS.
unfoldable pub count_lines : CountsPagesL2 → Option (List CountLine)
count_lines t = for_each_count print_count t []
