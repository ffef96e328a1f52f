-- ===== src/Search.antt =====
-- `std::lower_bound` over a range of `len` elements, given by the test that the comparison makes of
-- each: the standard library's halving loop, on fuel.
use funtrace.Prelude.{
  ℕ, zero, suc, ◌+◌, ◌-◌, ◌/◌, ◌≤◌, ◌<◌, ◌≡◌, refl, Bool, true, false, not, List, [], ◌∷◌, ◌==◌,
  arith, length, get_or, drop, filter, Bool-cases, inl, inr, ap, ◌∙◌, subst, dec_lt, sym, All,
}

search_from : (ℕ → Bool) → ℕ → ℕ → ℕ → ℕ
search_from less zero first len = first
search_from less (suc fuel) first len = elim (len == 0) [
  | true ↦ first
  | false ↦ elim (less (first + len / 2)) [
    | true ↦ search_from less fuel (first + len / 2 + 1) (len - len / 2 - 1)
    | false ↦ search_from less fuel first (len / 2)
  ]
]

-- The number of elements in front of the place found. Each round shortens the range, so its
-- length is fuel enough.
unfoldable pub lower_bound : (ℕ → Bool) → ℕ → ℕ
unfolding search_from
lower_bound less len = search_from less len 0 len

-- What the search asks of its range: the elements that are less come first.
abbrev pub IsPartitioned : (ℕ → Bool) → ℕ → Type 0
IsPartitioned less n = (i j : ℕ) → i ≤ j → j < n → less j ≡ true → less i ≡ true

-- `r` parts the places below `n` from `first` on.
abbrev Parts : (ℕ → Bool) → ℕ → ℕ → ℕ → Type 0
Parts less first n r =
    (first ≤ r)
    × (r ≤ n)
    × ((i : ℕ) → first ≤ i → i < r → less i ≡ true)
    × ((i : ℕ) → r ≤ i → i < n → less i ≡ false)

module _ (less : ℕ → Bool) (n : ℕ) (sorted : IsPartitioned less n) where
  -- The middle is less: so is all in front of it.
  extend_front :
      (first m end r : ℕ)
      → less m ≡ true
      → first ≤ m
      → m < n
      → Parts less (m + 1) end r
      → Parts less first end r
  extend_front first m end r e h k p = (omega arith, p.1, front, p.3)
    where
      front : (i : ℕ) → first ≤ i → i < r → less i ≡ true
      front i hi hr = elim (dec_lt m i) [
        | yes lt ↦ p.2 i (omega arith) hr
        | no ge ↦ sorted i m (omega arith) k e
      ]

  -- The middle is not less: nor is anything behind it.
  extend_back :
      (first m end r : ℕ)
      → less m ≡ false
      → m ≤ end
      → end ≤ n
      → Parts less first m r
      → Parts less first end r
  extend_back first m end r e h k p = (p.0, omega arith, p.2, back)
    where
      back : (i : ℕ) → r ≤ i → i < end → less i ≡ false
      back i hr hi = elim (dec_lt i m) [
        | yes lt ↦ p.3 i hr lt
        | no ge ↦ elim (Bool-cases (less i)) [
          | inl t ↦ cc (sorted m i (omega arith) (omega arith) t)
          | inr f ↦ f
        ]
      ]

  halve-Parts :
      (first len r₁ r₂ : ℕ)
      → 1 ≤ len
      → first + len ≤ n
      → Parts less (first + len / 2 + 1) (first + len) r₁
      → Parts less first (first + len / 2) r₂
      → Parts less first (first + len) (elim (less (first + len / 2)) [ true ↦ r₁ | false ↦ r₂ ])
  halve-Parts first len r₁ r₂ h k p q = elim (Bool-cases (less (first + len / 2))) [
    | inl e ↦
        rw e (extend_front first (first + len / 2) (first + len) r₁ e (omega arith) (omega arith) p)
    | inr e ↦ rw e (extend_back first (first + len / 2) (first + len) r₂ e (omega arith) k q)
  ]

  search_from-Parts :
      (fuel first len : ℕ)
      → len ≤ fuel
      → first + len ≤ n
      → Parts less first (first + len) (search_from less fuel first len)
  unfolding search_from
  search_from-Parts zero first len h k =
      (omega arith, omega arith, λ i p q. absurd (omega arith), λ i p q. absurd (omega arith))
  search_from-Parts (suc fuel) first len h k = elim (Bool-cases (len == 0)) [
    | inl e ↦
        rw (e, search_from)
          (omega arith, omega arith, λ i p q. absurd (omega arith), λ i p q. absurd (ground arith))
    | inr e ↦
        rw (e, search_from)
          (halve-Parts first len _ _ (ground arith) k
            (subst
              (λ end.
                Parts less (first + len / 2 + 1) end
                  (search_from less fuel (first + len / 2 + 1) (len - len / 2 - 1)))
              (whole (ground arith))
              (search_from-Parts fuel (first + len / 2 + 1) (len - len / 2 - 1) (ground arith)
                (ground arith)))
            (search_from-Parts fuel first (len / 2) (ground arith) (omega arith)))
  ]
    where
      whole : 1 ≤ len → first + len / 2 + 1 + (len - len / 2 - 1) ≡ first + len
      whole pos = omega arith

  -- The place that the search finds parts the range.
  pub lower_bound-Parts :
      (lower_bound less n ≤ n)
      × ((i : ℕ) → i < lower_bound less n → less i ≡ true)
      × ((i : ℕ) → lower_bound less n ≤ i → i < n → less i ≡ false)
  unfolding lower_bound
  lower_bound-Parts =
      let p = search_from-Parts n 0 n (omega arith) (omega arith) in
      (omega (arith, p.1), λ i h. p.2 i (omega arith) h, λ i h k. p.3 i h (omega arith))

-- A test that, once it fails along a list, fails from there on.
abbrev pub Falls {ℓ} : {A : Type ℓ} → (A → Bool) → List A → Type 0
Falls q [] = Unit
Falls q (x ∷ xs) = All (λ y. q y ≡ true → q x ≡ true) xs × Falls q xs

module _ {ℓ} {A : Type ℓ} where
  pub All-get_or :
      (P : A → Type 0) (d : A) (xs : List A) (i : ℕ) → All P xs → i < length xs → P (get_or xs i d)
  All-get_or P d [] i h k = absurd (omega arith)
  All-get_or P d (x ∷ xs) zero h k = h.0
  All-get_or P d (x ∷ xs) (suc i) h k = All-get_or P d xs i h.1 (omega arith)

  Falls-get_or :
      (q : A → Bool) (d : A) (xs : List A)
      → Falls q xs
      → (i j : ℕ) → i ≤ j
      → j < length xs
      → q (get_or xs j d) ≡ true
      → q (get_or xs i d) ≡ true
  Falls-get_or q d [] f i j h k e = absurd (omega arith)
  Falls-get_or q d (x ∷ xs) f zero zero h k e = e
  Falls-get_or q d (x ∷ xs) f zero (suc j) h k e =
      All-get_or (λ y. q y ≡ true → q x ≡ true) d xs j f.0 (omega arith) e
  Falls-get_or q d (x ∷ xs) f (suc i) zero h k e = absurd (omega arith)
  Falls-get_or q d (x ∷ xs) f (suc i) (suc j) h k e =
      Falls-get_or q d xs f.1 i j (omega arith) (omega arith) e

module _ {ℓ} {A : Type ℓ} where
  -- What stands behind the place that parts a list is what fails the test.
  drop-parts :
      (q : A → Bool) (d : A) (xs : List A) (r : ℕ)
      → r ≤ length xs
      → ((i : ℕ) → i < r → q (get_or xs i d) ≡ true)
      → ((i : ℕ) → r ≤ i → i < length xs → q (get_or xs i d) ≡ false)
      → drop r xs ≡ filter (λ x. not (q x)) xs
  drop-parts q d [] zero h before after = refl
  drop-parts q d [] (suc r) h before after = refl
  drop-parts q d (x ∷ xs) zero h before after = rw (after 0 (omega arith) (omega arith)) (
      ap (λ l. x ∷ l)
        (drop-parts q d xs 0 (omega arith) (λ i p. absurd (omega arith))
          (λ i p k. after (suc i) (omega arith) (omega arith))))
  drop-parts q d (x ∷ xs) (suc r) h before after = rw (before 0 (omega arith)) (
      drop-parts q d xs r (omega arith) (λ i p. before (suc i) (omega arith))
        (λ i p k. after (suc i) (omega arith) (omega arith)))

  -- The elements from the place found on are those that fail the test, in order.
  pub drop-lower_bound :
      (q : A → Bool) (d : A) (less : ℕ → Bool) (xs : List A)
      → ((i : ℕ) → i < length xs → less i ≡ q (get_or xs i d))
      → Falls q xs
      → (lower_bound less (length xs) ≤ length xs)
        × (drop (lower_bound less (length xs)) xs ≡ filter (λ x. not (q x)) xs)
  drop-lower_bound q d less xs agree falls =
      let p = lower_bound-Parts less (length xs) partitioned in
      (
        p.0,
        drop-parts q d xs (lower_bound less (length xs)) p.0
            (λ i h. sym (agree i (omega (arith, p.0))) ∙ p.1 i h)
            (λ i h k. sym (agree i k) ∙ p.2 i h k),
      )
    where
      partitioned : IsPartitioned less (length xs)
      partitioned i j h k e =
          agree i (omega arith) ∙ Falls-get_or q d xs falls i j h k (sym (agree j k) ∙ e)
