-- ===== src/Registry/Pointers.antt =====
-- The vector of pointers: search, and removal by moving the last one into the gap.
use funtrace.Prelude.{
  ℕ, zero, suc, ◌+◌, ◌-◌, ◌<◌, ◌≡◌, ◌≢◌, refl, ap, ◌∙◌, Bool, true, false, Option, none, some, List,
  [], ◌∷◌, ◌++◌, arith, ◌==◌, if◌then◌else◌, length, get_or, set, take, length-set, length-take,
}

-- The first place that holds a pointer.
unfoldable pub find_index : ℕ → List ℕ → Option ℕ
find_index p [] = none
find_index p (x ∷ xs) =
    if x == p then some 0 else elim (find_index p xs) [ none ↦ none | some i ↦ some (suc i) ]

-- `xs[i] = xs.back(); xs.pop_back();`
unfoldable pub swap_remove : ℕ → List ℕ → List ℕ
swap_remove i xs = take (length xs - 1) (set xs i (get_or xs (length xs - 1) 0))

-- How often a pointer stands in the vector.
abbrev pub count : ℕ → List ℕ → ℕ
count p [] = 0
count p (x ∷ xs) = (if x == p then 1 else 0) + count p xs

abbrev pub one_if : Bool → ℕ
one_if true = 1
one_if false = 0

pub count-append : (p : ℕ) (xs ys : List ℕ) → count p (xs ++ ys) ≡ count p xs + count p ys
count-append p [] ys = omega arith
count-append p (x ∷ xs) ys = omega (arith, count-append p xs ys)

pub count-set :
    (p : ℕ) (xs : List ℕ) (i v : ℕ)
    → i < length xs
    → count p (set xs i v) + one_if (get_or xs i 0 == p) ≡ count p xs + one_if (v == p)
count-set p [] i v h = absurd (omega arith)
count-set p (x ∷ xs) zero v h = ground arith
count-set p (x ∷ xs) (suc i) v h = omega (arith, count-set p xs i v (omega arith))

count-init :
    (p : ℕ) (xs : List ℕ) (n : ℕ)
    → length xs ≡ suc n
    → count p (take n xs) + one_if (get_or xs n 0 == p) ≡ count p xs
count-init p [] n h = absurd (omega arith)
count-init p (x ∷ []) zero h = ground arith
count-init p (x ∷ y ∷ ys) zero h = absurd (omega arith)
count-init p (x ∷ xs) (suc n) h = omega (arith, count-init p xs n (omega arith))

get_or-set_copy : (xs : List ℕ) (i n : ℕ) → get_or (set xs i (get_or xs n 0)) n 0 ≡ get_or xs n 0
get_or-set_copy [] i n = refl
get_or-set_copy (x ∷ xs) zero zero = refl
get_or-set_copy (x ∷ xs) zero (suc n) = refl
get_or-set_copy (x ∷ xs) (suc i) zero = refl
get_or-set_copy (x ∷ xs) (suc i) (suc n) = get_or-set_copy xs i n

-- A removal takes out one occurrence of what stood at the place.
pub count-swap_remove :
    (p : ℕ) (xs : List ℕ) (i : ℕ)
    → i < length xs
    → count p (swap_remove i xs) + one_if (get_or xs i 0 == p) ≡ count p xs
unfolding swap_remove
count-swap_remove p xs i h = omega (
  arith,
  count-init p (set xs i last) (length xs - 1) (omega (arith, length-set xs i last)),
  count-set p xs i last h,
  ap (λ v. one_if (v == p)) (get_or-set_copy xs i (length xs - 1)),
)
  where
    last : ℕ
    last = get_or xs (length xs - 1) 0

get_or-take : (xs : List ℕ) (n j : ℕ) → j < n → get_or (take n xs) j 0 ≡ get_or xs j 0
get_or-take xs zero j h = absurd (omega arith)
get_or-take [] (suc n) j h = refl
get_or-take (x ∷ xs) (suc n) zero h = refl
get_or-take (x ∷ xs) (suc n) (suc j) h = get_or-take xs n j (omega arith)

get_or-set_before : (xs : List ℕ) (i j v : ℕ) → j < i → get_or (set xs i v) j 0 ≡ get_or xs j 0
get_or-set_before xs zero j v h = absurd (omega arith)
get_or-set_before [] (suc i) j v h = refl
get_or-set_before (x ∷ xs) (suc i) zero v h = refl
get_or-set_before (x ∷ xs) (suc i) (suc j) v h = get_or-set_before xs i j v (omega arith)

-- A removal leaves what stands before its place.
pub get_or-swap_remove :
    (i j : ℕ) (xs : List ℕ) → j < i → i < length xs → get_or (swap_remove i xs) j 0 ≡ get_or xs j 0
unfolding swap_remove
get_or-swap_remove i j xs h k =
    get_or-take (set xs i _) (length xs - 1) j (omega arith) ∙ get_or-set_before xs i j _ h

pub count_none :
    (p : ℕ) (xs : List ℕ) → ((j : ℕ) → j < length xs → get_or xs j 0 ≢ p) → count p xs ≡ 0
count_none p [] h = refl
count_none p (x ∷ xs) h =
    ground (arith, h 0 (omega arith), count_none p xs (λ j k. h (suc j) (omega arith)))

pub length-swap_remove : (i : ℕ) (xs : List ℕ) → length (swap_remove i xs) ≡ length xs - 1
unfolding swap_remove
length-swap_remove i xs = omega (
  arith,
  length-take (length xs - 1) (set xs i (get_or xs (length xs - 1) 0)),
  length-set xs i (get_or xs (length xs - 1) 0),
)
