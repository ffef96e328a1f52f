-- ===== src/Funcount/Exit.antt =====
-- The counts that funcount.txt gets at exit, of all page tables.
use funtrace.Prelude.{
  ℕ, ◌+◌, ◌*◌, ◌/◌, ◌%◌, ◌^◌, ◌<◌, ◌≡◌, refl, ap, ap₂, sym, ◌∙◌, inl, inr, Bool, true, false, ◌&&◌,
  Option, none, some, List, [], ◌∷◌, ◌++◌, arith, ◌==◌, if◌then◌else◌, ◌>>=◌, Bool-cases,
}
use funtrace.Funcount.Address.{address_of, address_of-eq}
use funtrace.Funcount.Mapped.{get_count-eq}
use funtrace.Funcount.Counting.{same, is_some, value-add_to, page_at-add_to}
use funtrace.Funcount.Visits.{Adds, Adds-none, Adds-then, for_each_count-Adds}
use funtrace.Funcount.Report.{
  accumulate, merge_into, merge_all, CountLine, print_count, count_lines,
}
use funtrace.Funcount.{
  CountsPage, CountsPagesL2, page_at, value, Counter, counter_at, get_count, add_to, or_new,
  new_page,
}

get_count-address_of :
    (hi mid lo : ℕ) (t : CountsPagesL2)
    → hi < 2 ^ 16
    → mid < 2 ^ 16
    → lo < 2 ^ 13
    → get_count t (address_of hi mid lo) ≡ some (counter_at (page_at t hi mid) hi mid lo)
get_count-address_of hi mid lo t a b c =
    ap (get_count t) (address_of-eq hi mid lo b c)
    ∙ get_count-eq (hi * 2 ^ 32 + mid * 2 ^ 16 + lo * 8) t (omega arith)
    ∙ ap₂
        (λ x y.
          some
            (counter_at (page_at t x y) x y ((hi * 2 ^ 32 + mid * 2 ^ 16 + lo * 8) % 2 ^ 16 / 8)))
        high mid_part
    ∙ ap (λ z. some (counter_at (page_at t hi mid) hi mid z)) low
  where
    high : (hi * 2 ^ 32 + mid * 2 ^ 16 + lo * 8) / 2 ^ 32 ≡ hi
    high = omega arith

    mid_part : (hi * 2 ^ 32 + mid * 2 ^ 16 + lo * 8) / 2 ^ 16 % 2 ^ 16 ≡ mid
    mid_part = omega arith

    low : (hi * 2 ^ 32 + mid * 2 ^ 16 + lo * 8) % 2 ^ 16 / 8 ≡ lo
    low = omega arith

abbrev pub wrapped : ℕ → ℕ
wrapped n = n % 2 ^ 64

wrapped-add : (a b k : ℕ) → wrapped a ≡ wrapped b → wrapped (a + k) ≡ wrapped (b + k)
wrapped-add a b k e = omega (arith, e)

-- The count of a place in each of some tables.
abbrev pub total : Counter → List CountsPagesL2 → ℕ
total c [] = 0
total c (t ∷ ts) = total c ts + value t c

module _ {h m l : ℕ} (in_high : h < 2 ^ 16) (in_mid : m < 2 ^ 16) (in_page : l < 2 ^ 13) where
  abbrev pub place : Counter
  place = Counter.count h m l

  abbrev pub HasPage : CountsPagesL2 → Type 0
  HasPage t = is_some (page_at t h m) ≡ true

  abbrev Grows : ℕ → CountsPagesL2 → Option CountsPagesL2 → Type 0
  Grows = Adds HasPage (λ t. value t place) wrapped wrapped-add

  pub same-place :
      (o : Option CountsPage) (hi mid lo : ℕ) (t : CountsPagesL2)
      → page_at t hi mid ≡ o
      → HasPage t
      → same (counter_at o hi mid lo) place ≡ hi == h && (mid == m && lo == l)
  same-place (some page) hi mid lo t e p = refl
  same-place none hi mid lo t e p = elim (Bool-cases (hi == h)) [
    | inr f ↦ rw f refl
    | inl f ↦ elim (Bool-cases (mid == m)) [
      | inr g ↦ rw (f, g) refl
      | inl g ↦ absurd (cc (missing (ground arith) (ground arith)))
    ]
  ]
    where
      missing : hi ≡ h → mid ≡ m → true ≡ false
      missing f g = sym p ∙ ap is_some (ap₂ (page_at t) (sym f) (sym g) ∙ e)

  accumulate-Grows :
      (hi mid lo n : ℕ)
      → hi < 2 ^ 16
      → mid < 2 ^ 16
      → lo < 2 ^ 13
      → (t : CountsPagesL2) → HasPage t
      → Grows
          (if hi == h && (mid == m && lo == l) then n else 0)
          t
          (accumulate (address_of hi mid lo) n t)
  unfolding accumulate
  accumulate-Grows hi mid lo n a b c t p = (
    add_to counter n t,
    rw (get_count-address_of hi mid lo t a b c) refl,
    page_at-add_to (page_at t hi mid) hi mid lo n h m t refl ∙ p,
    ground
        (arith, value-add_to counter place n t, same-place (page_at t hi mid) hi mid lo t refl p),
  )
    where
      counter : Counter
      counter = counter_at (page_at t hi mid) hi mid lo

  merge_into-Grows :
      (t last : CountsPagesL2) → HasPage last → Grows (value t place) last (merge_into t last)
  unfolding merge_into
  merge_into-Grows t last p =
      let (last', e, q, v) =
        for_each_count-Adds HasPage (λ t. value t place) wrapped wrapped-add accumulate in_high
          in_mid in_page accumulate-Grows t last p in
      (
        with_unknown last',
        rw e refl,
        ap is_some (kept (t.unknown == 0) last' _) ∙ q,
        ap (λ o. wrapped (or_new o new_page l)) (kept (t.unknown == 0) last' _) ∙ v,
      )
    where
      with_unknown : CountsPagesL2 → CountsPagesL2
      with_unknown last' =
          if t.unknown == 0
          then last'
          else record last' { unknown = (last'.unknown + t.unknown) % 2 ^ 64 }

      kept :
          (b : Bool) (last' : CountsPagesL2) (n : ℕ)
          → page_at (if b then last' else record last' { unknown = n }) h m ≡ page_at last' h m
      kept true last' n = refl
      kept false last' n = refl

  merge_all-Grows :
      (ts : List CountsPagesL2) (last : CountsPagesL2)
      → HasPage last
      → Grows (total place ts) last (merge_all ts last)
  unfolding merge_all
  merge_all-Grows [] last p = Adds-none HasPage (λ t. value t place) wrapped wrapped-add last p
  merge_all-Grows (t ∷ ts) last p =
      Adds-then HasPage (λ t. value t place) wrapped wrapped-add (total place ts) (value t place)
        last (merge_all ts last) (merge_into t) (merge_all-Grows ts last p) (merge_into-Grows t)

-- The counts that the report gives to an address.
abbrev pub printed : ℕ → List CountLine → ℕ
printed address [] = 0
printed address (line ∷ lines) =
    (if line.address == address then line.count else 0) + printed address lines

printed-append :
    (address : ℕ) (xs ys : List CountLine)
    → printed address (xs ++ ys) ≡ printed address xs + printed address ys
printed-append address [] ys = omega arith
printed-append address (x ∷ xs) ys = omega (arith, printed-append address xs ys)

module _ {h m l : ℕ} (in_high : h < 2 ^ 16) (in_mid : m < 2 ^ 16) (in_page : l < 2 ^ 13) where
  abbrev Prints : ℕ → List CountLine → Option (List CountLine) → Type 0
  Prints =
      Adds (λ lines. Unit {0}) (printed (address_of h m l)) (λ n. n) (λ a b k e. ap (λ n. n + k) e)

  address-same :
      (hi mid lo : ℕ)
      → mid < 2 ^ 16
      → lo < 2 ^ 13
      → (address_of hi mid lo == address_of h m l) ≡ hi == h && (mid == m && lo == l)
  address-same hi mid lo b c =
      rw (address_of-eq hi mid lo b c, address_of-eq h m l in_mid in_page) (ground arith)

  print_count-Prints :
      (hi mid lo n : ℕ)
      → hi < 2 ^ 16
      → mid < 2 ^ 16
      → lo < 2 ^ 13
      → (lines : List CountLine) → Unit {0}
      → Prints
          (if hi == h && (mid == m && lo == l) then n else 0)
          lines
          (print_count (address_of hi mid lo) n lines)
  unfolding print_count
  print_count-Prints hi mid lo n a b c lines p = (
    lines ++ record { address = address_of hi mid lo; count = n } ∷ [],
    refl,
    tt,
    rw
        (
          printed-append (address_of h m l) lines
              (record { address = address_of hi mid lo; count = n } ∷ []),
          address-same hi mid lo b c,
        )
        (omega arith),
  )

  count_lines-printed :
      (t : CountsPagesL2)
      → (lines : List CountLine) × (count_lines t ≡ some lines)
        × (printed (address_of h m l) lines ≡ value t (Counter.count h m l))
  unfolding count_lines
  count_lines-printed t =
      let (lines, e, q, v) =
        for_each_count-Adds (λ lines. Unit {0}) (printed (address_of h m l)) (λ n. n)
          (λ a b k e. ap (λ n. n + k) e) print_count in_high in_mid in_page print_count-Prints t []
          tt in
      (lines, e, omega (arith, v))

-- At exit, where the first page table has the page of a group of 8 bytes: no assertion fails, and the
-- lines of the report with the group's address have together, modulo 2^64, the sum of the group's
-- counts in the first table and in all the others, whichever pages the others have.
pub merge_all-printed :
    {h m l : ℕ} (first : CountsPagesL2) (others : List CountsPagesL2)
    → h < 2 ^ 16
    → m < 2 ^ 16
    → l < 2 ^ 13
    → is_some (page_at first h m) ≡ true
    → (lines : List CountLine) × (merge_all others first >>= (λ last. count_lines last)
        ≡ some lines)
      × (printed (address_of h m l) lines % 2 ^ 64
          ≡ total (Counter.count h m l) (first ∷ others) % 2 ^ 64)
merge_all-printed {h} {m} {l} first others a b c p =
    let (last, e, q, v) = merge_all-Grows a b c others first p in
    let (lines, f, w) = count_lines-printed a b c last in
    (lines, ap (λ r. r >>= λ last. count_lines last) e ∙ f, omega (arith, w, v))
