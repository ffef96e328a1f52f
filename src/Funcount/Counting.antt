-- ===== src/Funcount/Counting.antt =====
-- `__cyg_profile_func_enter`: each call is counted once, at its own count.
use funtrace.Prelude.{
  ℕ, ◌+◌, ◌/◌, ◌%◌, ◌^◌, ◌<◌, ◌≡◌, refl, ap, ap₂, ◌∙◌, inl, inr, Bool, true, false, ◌&&◌, Option,
  none, some, List, [], ◌∷◌, arith, ◌==◌, if◌then◌else◌, ◌>>=◌, All, Bool-cases, Option-cases,
}
use funtrace.Funcount.Mapped.{page_of, get_count-eq}
use funtrace.Funcount.{
  CountsPagesL2, CountsPage, Counter, counter_at, page_at, value, add_to, func_enter, count_size,
}

abbrev pub same : Counter → Counter → Bool
same Counter.unknown Counter.unknown = true
same Counter.unknown (Counter.count h m l) = false
same (Counter.count h m l) Counter.unknown = false
same (Counter.count h m l) (Counter.count h' m' l') = (h == h') && ((m == m') && (l == l'))

-- Adding to a count changes it and no other.
pub value-add_to :
    (c d : Counter) (n : ℕ) (t : CountsPagesL2)
    → value (add_to c n t) d ≡ (if same c d then (value t d + n) % 2 ^ 64 else value t d)
unfolding add_to
value-add_to Counter.unknown Counter.unknown n t = refl
value-add_to Counter.unknown (Counter.count h m l) n t = refl
value-add_to (Counter.count h m l) Counter.unknown n t = refl
value-add_to (Counter.count h m l) (Counter.count h' m' l') n t = elim (Bool-cases (h == h')) [
  | inr e ↦ ground arith
  | inl e ↦ elim (Option-cases (t.pages_l1 h)) [
    | inl none_l1 ↦ ground arith
    | inr (pages, some_l1) ↦ elim (Option-cases (pages m)) [
      | inl none_page ↦ ground arith
      | inr (page, some_page) ↦ ground arith
    ]
  ]
]

abbrev pub is_some {ℓ} : {A : Type ℓ} → Option A → Bool
is_some none = false
is_some (some a) = true

-- The count at which the calls of an address are counted.
abbrev pub counter_of : CountsPagesL2 → ℕ → Counter
counter_of t a =
    counter_at (page_of t a) (a / 2 ^ 32) (a / 2 ^ 16 % 2 ^ 16) (a % 2 ^ 16 / count_size)

-- Counting makes no page: the count that it adds to has one.
pub page_at-add_to :
    (o : Option CountsPage) (h m l n h' m' : ℕ) (t : CountsPagesL2)
    → page_at t h m ≡ o
    → is_some (page_at (add_to (counter_at o h m l) n t) h' m') ≡ is_some (page_at t h' m')
unfolding add_to
page_at-add_to none h m l n h' m' t e = refl
page_at-add_to (some page) h m l n h' m' t e = elim (Bool-cases (h' == h)) [
  | inr f ↦ ground arith
  | inl f ↦ elim (Option-cases (t.pages_l1 h)) [
    | inl g ↦ ground arith
    | inr (pages, g) ↦ ground arith
  ]
]

counter_at-cong :
    (o o' : Option CountsPage) (h m l : ℕ)
    → is_some o ≡ is_some o'
    → counter_at o h m l ≡ counter_at o' h m l
counter_at-cong none none h m l e = refl
counter_at-cong none (some p) h m l e = cc
counter_at-cong (some p) none h m l e = cc
counter_at-cong (some p) (some p') h m l e = refl

counter_of-add_to :
    (a f n : ℕ) (t : CountsPagesL2) → counter_of (add_to (counter_of t f) n t) a ≡ counter_of t a
counter_of-add_to a f n t =
    counter_at-cong _ (page_of t a) (a / 2 ^ 32) (a / 2 ^ 16 % 2 ^ 16) (a % 2 ^ 16 / count_size) (
      page_at-add_to (page_of t f) (f / 2 ^ 32) (f / 2 ^ 16 % 2 ^ 16) (f % 2 ^ 16 / count_size) n
        (a / 2 ^ 32) (a / 2 ^ 16 % 2 ^ 16) t refl)

-- The calls of a program, in order.
unfoldable pub enter_all : List ℕ → CountsPagesL2 → Option CountsPagesL2
enter_all [] t = some t
enter_all (f ∷ fs) t = func_enter f t >>= λ t'. enter_all fs t'

-- How many of the calls are of functions that share a count.
abbrev pub calls : CountsPagesL2 → Counter → List ℕ → ℕ
calls t c [] = 0
calls t c (f ∷ fs) = (if same (counter_of t f) c then 1 else 0) + calls t c fs

calls-add_to :
    (c : Counter) (f n : ℕ) (t : CountsPagesL2) (fs : List ℕ)
    → calls (add_to (counter_of t f) n t) c fs ≡ calls t c fs
calls-add_to c f n t [] = refl
calls-add_to c f n t (g ∷ fs) =
    ap₂ (λ d (k : ℕ). (if same d c then 1 else 0) + k) (counter_of-add_to g f n t)
      (calls-add_to c f n t fs)

pub func_enter-eq :
    (f : ℕ) (t : CountsPagesL2) → f < 2 ^ 48 → func_enter f t ≡ some (add_to (counter_of t f) 1 t)
unfolding func_enter
func_enter-eq f t h = rw (get_count-eq f t h)

-- Calls of functions at 48-bit addresses succeed, and add to each count, modulo 2^64, the number of
-- those calls whose address has that count: its group of 8 bytes where its page is there, and the
-- count of unknown calls otherwise.
value-enter_all :
    (fs : List ℕ) (c : Counter) (t : CountsPagesL2)
    → All (λ f. f < 2 ^ 48) fs
    → value t c < 2 ^ 64
    → (t' : CountsPagesL2) × (enter_all fs t ≡ some t')
      × (value t' c ≡ (value t c + calls t c fs) % 2 ^ 64)
unfolding enter_all
value-enter_all [] c t h small = (t, refl, omega arith)
value-enter_all (f ∷ fs) c t h small =
    let t₁ : CountsPagesL2 = add_to (counter_of t f) 1 t in
    let (t', e, v) = value-enter_all fs c t₁ h.1 below in
    (
      t',
      ap (λ r. r >>= λ t'. enter_all fs t') (func_enter-eq f t h.0) ∙ e,
      v ∙ ground (arith, value-add_to (counter_of t f) c 1 t, calls-add_to c f 1 t fs),
    )
  where
    below : value (add_to (counter_of t f) 1 t) c < 2 ^ 64
    below = ground (arith, value-add_to (counter_of t f) c 1 t)
