-- ===== src/Funcount/Mapped.antt =====
-- `allocate_range`: every address of the range has a page afterwards.
use funtrace.Prelude.{
  ℕ, zero, suc, ◌+◌, ◌-◌, ◌*◌, ◌/◌, ◌%◌, ◌^◌, ◌≤◌, ◌<◌, ◌≡◌, refl, ap, ap₂, ◌∙◌, ◌⊎◌, inl, inr,
  Bool, true, false, ◌||◌, Option, none, some, arith, leb, ◌==◌, bit_and_high_sixteen, le→leb, ◌≢◌,
  Bool-cases, Option-cases, dec_lt,
}
use funtrace.Funcount.Address.{page_size, high_bits-eq, mid_bits-eq, low_bits-eq}
use funtrace.Funcount.{
  CountsPage, CountsPagesL2, page_at, put, or_new, new_pages, new_page, allocate_page,
  allocate_from, range_start, range_end, allocate_range, get_count, Counter, counter_at, count_size,
}

-- The page of an address, by its two indices.
abbrev pub page_of : CountsPagesL2 → ℕ → Option CountsPage
page_of t a = page_at t (a / 2 ^ 32) (a / 2 ^ 16 % 2 ^ 16)

abbrev is_some {ℓ} : {A : Type ℓ} → Option A → Bool
is_some none = false
is_some (some a) = true

-- Page number `n` is there.
abbrev pub is_mapped : CountsPagesL2 → ℕ → Bool
is_mapped t n = is_some (page_at t (n / 2 ^ 16) (n % 2 ^ 16))

-- The state after the page of two indices was made.
abbrev with_page : ℕ → ℕ → CountsPagesL2 → CountsPagesL2
with_page high mid t =
    let pages = or_new (t.pages_l1 high) new_pages in
    let page = or_new (pages mid) new_page in
    record t { pages_l1 = put high (some (put mid (some page) pages)) t.pages_l1 }

allocate_page-eq :
    (a : ℕ) (t : CountsPagesL2)
    → a < 2 ^ 48
    → allocate_page a t ≡ some (with_page (a / 2 ^ 32) (a / 2 ^ 16 % 2 ^ 16) t)
unfolding allocate_page
allocate_page-eq a t h = rw (high_bits-eq a h, mid_bits-eq a)

-- A page that is made is there, and those that were there still are.
with_page-mapped :
    (high mid m : ℕ) (t : CountsPagesL2)
    → mid < 2 ^ 16
    → is_mapped (with_page high mid t) m ≡ (m == high * 2 ^ 16 + mid) || is_mapped t m
with_page-mapped high mid m t h = elim (Bool-cases (m / 2 ^ 16 == high)) [
  | inr e ↦ ground arith
  | inl e ↦ elim (Bool-cases (m % 2 ^ 16 == mid)) [
    | inl f ↦ ground arith
    | inr f ↦ elim (Option-cases (t.pages_l1 high)) [
      | inl g ↦ ground arith
      | inr (ps, g) ↦ ground arith
    ]
  ]
]

module _ (end : ℕ) (end_lt : end < 2 ^ 32) where
  -- One round of the loop, at page `n`.
  allocate_from-step :
      (fuel n : ℕ) (t : CountsPagesL2)
      → n ≤ end
      → allocate_from (suc fuel) (n * 2 ^ 16) (end * 2 ^ 16) t
        ≡ allocate_from fuel (suc n * 2 ^ 16) (end * 2 ^ 16) (with_page (n / 2 ^ 16) (n % 2 ^ 16) t)
  unfolding allocate_from
  allocate_from-step fuel n t h =
      rw
        (
          le→leb (n * 2 ^ 16) (end * 2 ^ 16) (omega arith),
          allocate_page-eq (n * 2 ^ 16) t (omega arith),
        )
        (ap₂ (λ a p. allocate_from fuel a (end * 2 ^ 16) p) (omega arith)
          (ap₂ (λ hi mid. with_page hi mid t) (omega arith) (omega arith)))

  -- The pages that are there, or that the loop from page `n` is to make.
  abbrev IsDue : ℕ → CountsPagesL2 → ℕ → Type 0
  IsDue n t m = ((n ≤ m) × (m ≤ end)) ⊎ (is_mapped t m ≡ true)

  IsDue-suc :
      (n m : ℕ) (t : CountsPagesL2)
      → IsDue n t m
      → IsDue (suc n) (with_page (n / 2 ^ 16) (n % 2 ^ 16) t) m
  IsDue-suc n m t (inr k) =
      inr (with_page-mapped (n / 2 ^ 16) (n % 2 ^ 16) m t (omega arith) ∙ rw k (ground arith))
  IsDue-suc n m t (inl k) = elim (dec_lt n m) [
    | yes lt ↦ inl (lt, k.1)
    | no ge ↦ inr (
        with_page-mapped (n / 2 ^ 16) (n % 2 ^ 16) m t (omega arith)
        ∙ rw (here (omega (arith, k.0))) refl)
  ]
    where
      here : m ≡ n → (m == n / 2 ^ 16 * 2 ^ 16 + n % 2 ^ 16) ≡ true
      here e = ground arith

  IsDue-end : (n m : ℕ) (t : CountsPagesL2) → end < n → IsDue n t m → is_mapped t m ≡ true
  IsDue-end n m t h (inl k) = absurd (omega arith)
  IsDue-end n m t h (inr k) = k

  allocate_from_past :
      (fuel n : ℕ) (t : CountsPagesL2)
      → end < n
      → allocate_from fuel (n * 2 ^ 16) (end * 2 ^ 16) t ≡ some t
  unfolding allocate_from
  allocate_from_past zero n t h = refl
  allocate_from_past (suc fuel) n t h = rw (past (n * 2 ^ 16) (end * 2 ^ 16) (omega arith))
    where
      past : (a b : ℕ) → b < a → leb a b ≡ false
      past a b k = ground arith

  -- The loop from page `n` to page `end`.
  allocate_from-mapped :
      (fuel n : ℕ) (t : CountsPagesL2)
      → end + 1 - n ≤ fuel
      → (t' : CountsPagesL2) × (allocate_from fuel (n * 2 ^ 16) (end * 2 ^ 16) t ≡ some t')
        × ((m : ℕ) → IsDue n t m → is_mapped t' m ≡ true)
  allocate_from-mapped zero n t h =
      (t, allocate_from_past zero n t (omega arith), λ m. IsDue-end n m t (omega arith))
  allocate_from-mapped (suc fuel) n t h = elim (dec_lt end n) [
    | yes lt ↦ (t, allocate_from_past (suc fuel) n t lt, λ m. IsDue-end n m t lt)
    | no ge ↦
        let (t', e, k) =
          allocate_from-mapped fuel (suc n) (with_page (n / 2 ^ 16) (n % 2 ^ 16) t) (omega arith) in
        (t', allocate_from-step fuel n t (omega arith) ∙ e, λ m d. k m (IsDue-suc n m t d))
  ]

module _ (base size : ℕ) (t : CountsPagesL2) (fits : base + size + page_size ≤ 2 ^ 48) where
  abbrev first_page : ℕ
  first_page = base / page_size

  abbrev last_page : ℕ
  last_page = (base + size + page_size - 1) / page_size

  range_start-eq : range_start base ≡ first_page * 2 ^ 16
  unfolding range_start
  range_start-eq = bit_and_high_sixteen base (omega arith)

  range_end-eq : range_end base size ≡ last_page * 2 ^ 16
  unfolding range_end
  range_end-eq =
      bit_and_high_sixteen ((base + size + page_size - 1) % 2 ^ 64) (omega arith) ∙ omega arith

  -- The pages that a range is to have: its own, and those that were there.
  allocate_range-mapped :
      (t' : CountsPagesL2) × (allocate_range base size t ≡ some t')
      × ((m : ℕ)
          → ((first_page ≤ m) × (m ≤ last_page)) ⊎ (is_mapped t m ≡ true)
          → is_mapped t' m ≡ true)
  unfolding allocate_range
  allocate_range-mapped =
      rw (range_start-eq, range_end-eq)
        (allocate_from-mapped last_page (omega arith)
          ((last_page * 2 ^ 16 - first_page * 2 ^ 16) / page_size + 1) first_page t (omega arith))

-- The count that stands for an address: of its group of 8 bytes.
abbrev pub own_count : ℕ → Counter
own_count a = Counter.count (a / 2 ^ 32) (a / 2 ^ 16 % 2 ^ 16) (a % 2 ^ 16 / count_size)

pub get_count-eq :
    (a : ℕ) (t : CountsPagesL2)
    → a < 2 ^ 48
    → get_count t a
      ≡ some (counter_at (page_of t a) (a / 2 ^ 32) (a / 2 ^ 16 % 2 ^ 16) (a % 2 ^ 16 / count_size))
unfolding get_count
get_count-eq a t h = rw (high_bits-eq a h, mid_bits-eq a, low_bits-eq a)

page_of-mapped : (a : ℕ) (t : CountsPagesL2) → is_some (page_of t a) ≡ is_mapped t (a / 2 ^ 16)
page_of-mapped a t = ap (λ x. is_some (page_at t x (a / 2 ^ 16 % 2 ^ 16))) halves
  where
    halves : a / 2 ^ 32 ≡ a / 2 ^ 16 / 2 ^ 16
    halves = omega arith

counter_at_some :
    (o : Option CountsPage) (a : ℕ)
    → is_some o ≡ true
    → counter_at o (a / 2 ^ 32) (a / 2 ^ 16 % 2 ^ 16) (a % 2 ^ 16 / count_size) ≡ own_count a
counter_at_some none a e = cc
counter_at_some (some page) a e = refl

counter_at_none :
    (o : Option CountsPage) (a : ℕ)
    → is_some o ≡ false
    → counter_at o (a / 2 ^ 32) (a / 2 ^ 16 % 2 ^ 16) (a % 2 ^ 16 / count_size) ≡ Counter.unknown
counter_at_none none a e = refl
counter_at_none (some page) a e = cc

mapped_known :
    (a : ℕ) (t : CountsPagesL2)
    → a < 2 ^ 48
    → get_count t a ≢ some Counter.unknown
    → is_mapped t (a / 2 ^ 16) ≡ true
mapped_known a t small ne = elim (Bool-cases (is_mapped t (a / 2 ^ 16))) [
  | inl e ↦ e
  | inr e ↦ absurd (
      ne (
        get_count-eq a t small
        ∙ ap some (counter_at_none (page_of t a) a (page_of-mapped a t ∙ e))))
]

-- An address whose calls are not unknown has a count of its own.
pub get_count_known :
    (a : ℕ) (t : CountsPagesL2)
    → a < 2 ^ 48
    → get_count t a ≢ some Counter.unknown
    → get_count t a ≡ some (own_count a)
get_count_known a t small ne =
    get_count-eq a t small
    ∙ ap some (counter_at_some (page_of t a) a (page_of-mapped a t ∙ mapped_known a t small ne))

-- What is due a count of its own once a range is mapped: the range, and what had one before.
abbrev pub IsDueCount : ℕ → ℕ → CountsPagesL2 → ℕ → Type 0
IsDueCount base size t a = ((base ≤ a) × (a < base + size)) ⊎ (get_count t a ≢ some Counter.unknown)

pub allocate_range-due :
    (base size : ℕ) (t : CountsPagesL2)
    → base + size + page_size ≤ 2 ^ 48
    → (t' : CountsPagesL2) × (allocate_range base size t ≡ some t')
      × ((a : ℕ) → a < 2 ^ 48 → IsDueCount base size t a → get_count t' a ≡ some (own_count a))
allocate_range-due base size t fits =
    let (t', e, k) = allocate_range-mapped base size t fits in
    (
      t',
      e,
      λ a small due.
          get_count-eq a t' small
          ∙ ap some (
              counter_at_some (page_of t' a) a
                (page_of-mapped a t' ∙ k (a / 2 ^ 16) (mapped a small due))),
    )
  where
    mapped :
        (a : ℕ)
        → a < 2 ^ 48
        → IsDueCount base size t a
        → ((first_page base size t fits ≤ a / 2 ^ 16) × (a / 2 ^ 16 ≤ last_page base size t fits))
          ⊎ (is_mapped t (a / 2 ^ 16) ≡ true)
    mapped a small (inl h) = inl (omega arith)
    mapped a small (inr ne) = inr (mapped_known a t small ne)

-- For a range whose end, with a page more, has 48 bits, no assertion fails, and afterwards each
-- address of the range has a count of its own group of 8 bytes: its calls are not unknown. An
-- address below 2^48 that had one still has it.
allocate_range-get_count :
    (base size a : ℕ) (t : CountsPagesL2)
    → base + size + page_size ≤ 2 ^ 48
    → a < 2 ^ 48
    → ((base ≤ a) × (a < base + size)) ⊎ (get_count t a ≢ some Counter.unknown)
    → (t' : CountsPagesL2) × (allocate_range base size t ≡ some t')
      × (get_count t' a ≡ some (own_count a))
allocate_range-get_count base size a t fits small due =
    let (t', e, k) = allocate_range-due base size t fits in (t', e, k a small due)
