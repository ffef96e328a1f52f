-- ===== src/TraceBuffer/Window.antt =====
-- Lists as cyclic buffers: a write at the position that is next, and what it does to the
-- elements in the order of their age.
use funtrace.Prelude.{
  ℕ, zero, suc, ◌≤◌, ◌<◌, ◌≡◌, refl, ap, ap₂, sym, ◌∙◌, List, [], ◌∷◌, ◌++◌, arith, length, set,
  take, drop, take_all, drop_all, append-nil, append_assoc,
}

module _ {ℓ} {A : Type ℓ} where
  -- The elements from the oldest to the newest, where the next write goes to place `i`.
  abbrev pub rotate : ℕ → List A → List A
  rotate i xs = drop i xs ++ take i xs

  drop-set : (xs : List A) (i : ℕ) (x : A) → drop (suc i) (set xs i x) ≡ drop (suc i) xs
  drop-set [] i x = refl
  drop-set (y ∷ ys) zero x = refl
  drop-set (y ∷ ys) (suc i) x = drop-set ys i x

  pub take-set :
      (xs : List A) (i : ℕ) (x : A)
      → i < length xs
      → take (suc i) (set xs i x) ≡ take i xs ++ x ∷ []
  take-set [] i x h = absurd (omega arith)
  take-set (y ∷ ys) zero x h = refl
  take-set (y ∷ ys) (suc i) x h = ap (λ l. y ∷ l) (take-set ys i x (omega arith))

  drop_one-drop :
      (xs ys : List A) (i : ℕ) → i < length xs → drop 1 (drop i xs ++ ys) ≡ drop (suc i) xs ++ ys
  drop_one-drop [] ys i h = absurd (omega arith)
  drop_one-drop (x ∷ xs) ys zero h = refl
  drop_one-drop (x ∷ xs) ys (suc i) h = drop_one-drop xs ys i (omega arith)

  -- A write at the next place forgets the oldest element and appends the new one.
  pub rotate-set :
      (xs : List A) (i : ℕ) (x : A)
      → i < length xs
      → rotate (suc i) (set xs i x) ≡ drop 1 (rotate i xs) ++ x ∷ []
  rotate-set xs i x h =
      ap₂ ◌++◌ (drop-set xs i x) (take-set xs i x h)
      ∙ sym (append_assoc (drop (suc i) xs) (take i xs) (x ∷ []))
      ∙ ap (λ l. l ++ x ∷ []) (sym (drop_one-drop xs (take i xs) i h))

  -- The end of the list is the same place as its start.
  pub rotate_end : (xs : List A) (n : ℕ) → n ≡ length xs → rotate n xs ≡ rotate 0 xs
  rotate_end xs n h =
      ap₂ ◌++◌ (drop_all n xs (omega arith)) (take_all n xs (omega arith)) ∙ sym (append-nil xs)

  pub drop-suc_append :
      (n : ℕ) (xs ys : List A) (x : A)
      → 1 ≤ length xs
      → drop n ((drop 1 xs ++ x ∷ []) ++ ys) ≡ drop (suc n) (xs ++ x ∷ ys)
  drop-suc_append n [] ys x h = absurd (omega arith)
  drop-suc_append n (y ∷ xs) ys x h = ap (drop n) (append_assoc xs (x ∷ []) ys)
