-- ===== src/Funcount/Small.antt =====
-- The sizes of the numbers in funcount's report.
use funtrace.Prelude.{
  ℕ, zero, suc, ◌+◌, ◌%◌, ◌^◌, ◌<◌, ◌≡◌, refl, ap, subst, inl, inr, Option, none, some, List, [],
  ◌∷◌, All, All-append, arith, ◌==◌, if◌then◌else◌, ◌>>=◌, Bool-cases,
}
use mathlib.Core.Option.{some-injective}
use funtrace.Funcount.Address.{page_size, address_of, address_of-eq}
use funtrace.Funcount.Counting.{value-add_to}
use funtrace.Funcount.Printed.{IsSmall}
use funtrace.Funcount.Report.{
  for_below, counts_in_page, on_count, on_page, on_pages, for_each_count, accumulate, merge_into,
  merge_all, print_count, count_lines,
}
use funtrace.Funcount.Tables.{report}
use funtrace.Funcount.{
  CountsPage, CountsPagesL1, CountsPagesL2, Counter, value, page_at, or_new, new_page, add_to,
  get_count,
}

-- Every count is a `uint64_t`.
abbrev pub IsBounded : CountsPagesL2 → Type 0
IsBounded t = (h m l : ℕ) → value t (Counter.count h m l) < 2 ^ 64

-- What every result of a body keeps, the loop keeps.
module _ {S : Type 0} (P : S → Type 0) where
  -- If there is a result, it has `P`.
  abbrev pub Leaves : Option S → Type 0
  Leaves r = (s' : S) → r ≡ some s' → P s'

  pub Leaves-some : (s : S) → P s → Leaves (some s)
  Leaves-some s p s' e = subst P (some-injective _ _ e) p

  pub Leaves-then :
      (r : Option S) (next : S → Option S)
      → Leaves r
      → ((s : S) → P s → Leaves (next s))
      → Leaves (r >>= λ s. next s)
  Leaves-then none next h k s' e = absurd (cc e)
  Leaves-then (some s) next h k s' e = k s (h s refl) s' e

  for_below-Leaves :
      (body : ℕ → S → Option S) (n : ℕ)
      → ((i : ℕ) → i < n → (s : S) → P s → Leaves (body i s))
      → (s : S) → P s
      → Leaves (for_below body n s)
  unfolding for_below
  for_below-Leaves body zero h s p = Leaves-some s p
  for_below-Leaves body (suc n) h s p =
      Leaves-then (for_below body n s) (body n)
        (for_below-Leaves body n (λ i lt. h i (omega arith)) s p) (h n (omega arith))

  module _ (use_count : ℕ → ℕ → S → Option S) (t : CountsPagesL2)
      (step : (hi mid lo : ℕ)
        → hi < 2 ^ 16
        → mid < 2 ^ 16
        → lo < 2 ^ 13
        → (s : S) → P s
        → Leaves (use_count (address_of hi mid lo) (value t (Counter.count hi mid lo)) s)) where
    on_page-Leaves :
        (hi mid : ℕ)
        → hi < 2 ^ 16
        → mid < 2 ^ 16
        → (o : Option CountsPage) → page_at t hi mid ≡ o
        → (s : S) → P s
        → Leaves (on_page use_count o hi mid s)
    unfolding on_page on_count
    on_page-Leaves hi mid h m none e s p = Leaves-some s p
    on_page-Leaves hi mid h m (some page) e s p =
        for_below-Leaves (on_count use_count page hi mid) counts_in_page one s p
      where
        one : (lo : ℕ) → lo < 2 ^ 13 → (s : S) → P s → Leaves (on_count use_count page hi mid lo s)
        one lo l s p = elim (Bool-cases (page lo == 0)) [
          | inl z ↦ rw z (Leaves-some s p)
          | inr z ↦ rw z (
              subst (λ n. Leaves (use_count (address_of hi mid lo) n s))
                (ap (λ o. or_new o new_page lo) e) (step hi mid lo h m l s p))
        ]

    on_pages-Leaves :
        (hi : ℕ)
        → hi < 2 ^ 16
        → (o : Option CountsPagesL1) → t.pages_l1 hi ≡ o
        → (s : S) → P s
        → Leaves (on_pages use_count o hi s)
    unfolding on_pages
    on_pages-Leaves hi h none e s p = Leaves-some s p
    on_pages-Leaves hi h (some pages) e s p =
        for_below-Leaves (λ mid. on_page use_count (pages mid) hi mid) page_size
          (λ mid m. on_page-Leaves hi mid h m (pages mid) (ap (λ o. o >>= λ pages. pages mid) e)) s
          p

    pub for_each_count-Leaves : (s : S) → P s → Leaves (for_each_count use_count t s)
    unfolding for_each_count
    for_each_count-Leaves s p =
        for_below-Leaves (λ hi. on_pages use_count (t.pages_l1 hi) hi) page_size
          (λ hi h. on_pages-Leaves hi h (t.pages_l1 hi) refl) s p

pub add_to-IsBounded :
    (c : Counter) (n : ℕ) (t : CountsPagesL2) → IsBounded t → IsBounded (add_to c n t)
add_to-IsBounded c n t b h m l = ground (arith, value-add_to c (Counter.count h m l) n t, b h m l)

pub added-IsBounded :
    (o : Option Counter) (n : ℕ) (last : CountsPagesL2)
    → IsBounded last
    → Leaves IsBounded (o >>= λ counter. some (add_to counter n last))
added-IsBounded none n last b s' e = absurd (cc e)
added-IsBounded (some c) n last b s' e =
    subst IsBounded (some-injective _ _ e) (add_to-IsBounded c n last b)

merge_into-IsBounded :
    (t last : CountsPagesL2) → IsBounded last → Leaves IsBounded (merge_into t last)
unfolding merge_into accumulate
merge_into-IsBounded t last b =
    Leaves-then IsBounded (for_each_count accumulate t last) _
      (for_each_count-Leaves IsBounded accumulate t
        (λ hi mid lo h m l s p.
          added-IsBounded (get_count s (address_of hi mid lo)) (value t (Counter.count hi mid lo)) s
            p)
        last b)
      kept
  where
    kept :
        (s : CountsPagesL2)
        → IsBounded s
        → Leaves IsBounded (
            some (
              if t.unknown == 0
              then s
              else record s { unknown = (s.unknown + t.unknown) % 2 ^ 64 }))
    kept s p s' e =
        subst IsBounded (some-injective _ _ e)
          (elim (Bool-cases (t.unknown == 0)) [ inl z ↦ rw z p | inr z ↦ rw z p ])

merge_all-IsBounded :
    (ts : List CountsPagesL2) (last : CountsPagesL2)
    → IsBounded last
    → Leaves IsBounded (merge_all ts last)
unfolding merge_all
merge_all-IsBounded [] last b = λ s' e. subst IsBounded (some-injective _ _ e) b
merge_all-IsBounded (t ∷ ts) last b =
    Leaves-then IsBounded (merge_all ts last) (merge_into t) (merge_all-IsBounded ts last b)
      (λ s p. merge_into-IsBounded t s p)

count_lines-IsSmall : (t : CountsPagesL2) → IsBounded t → Leaves (All IsSmall) (count_lines t)
unfolding count_lines print_count
count_lines-IsSmall t b =
    for_each_count-Leaves (All IsSmall) print_count t
      (λ hi mid lo h m l s p s' e.
        subst (All IsSmall) (some-injective _ _ e) (
          All-append IsSmall s _ p ((omega (arith, address_of-eq hi mid lo m l), b hi mid lo), tt)))
      [] tt

-- The lines of the report have addresses and counts of 64 bits, where the first table's counts do.
pub report-IsSmall :
    (t : CountsPagesL2) (ts : List CountsPagesL2)
    → IsBounded t
    → Leaves (All IsSmall) (report (t ∷ ts))
unfolding report
report-IsSmall t ts b = by_last (merge_all ts t) (merge_all-IsBounded ts t b)
  where
    by_last :
        (o : Option CountsPagesL2)
        → Leaves IsBounded o
        → Leaves (All IsSmall) (o >>= λ last. count_lines last)
    by_last none h s' e = absurd (cc e)
    by_last (some last) h s' e = count_lines-IsSmall last (h last refl) s' e
