-- ===== src/Prelude/Ranges.antt =====
-- Lists cut at a place, and what stands behind it.
use Prim.Native.Nat.{ℕ, zero, suc, ◌+◌, ◌-◌, ◌≤◌}
use mathlib.Core.Path.{◌≡◌, refl, ap, sym, ◌∙◌, subst}
use mathlib.Core.List.{List, [], ◌∷◌, ◌++◌}
use native.Mathlib.Omega.{arith}
use funtrace.Prelude.Lists.{
  length, drop, take, drop-append, take-append, get_or, All, All-append, take-append-drop,
}

module _ {ℓ} {A : Type ℓ} where
  drop_nil : (n : ℕ) → ◌≡◌ {A = List A} (drop n []) []
  drop_nil zero = refl
  drop_nil (suc n) = refl

  pub drop-drop : (m n : ℕ) (xs : List A) → drop m (drop n xs) ≡ drop (n + m) xs
  drop-drop m zero xs = ap (λ k. drop k xs) (omega arith)
  drop-drop m (suc n) [] = drop_nil m ∙ ap (λ k. drop k []) {x = suc (n + m)} (omega arith)
  drop-drop m (suc n) (x ∷ xs) =
      drop-drop m n xs ∙ ap (λ k. drop k (x ∷ xs)) {x = suc (n + m)} (omega arith)

  pub drop-append_le :
      (n : ℕ) (xs ys : List A) → n ≤ length xs → drop n (xs ++ ys) ≡ drop n xs ++ ys
  drop-append_le zero xs ys h = refl
  drop-append_le (suc n) [] ys h = absurd (omega arith)
  drop-append_le (suc n) (x ∷ xs) ys h = drop-append_le n xs ys (omega arith)

  pub drop-append_more :
      (n : ℕ) (xs ys : List A) → length xs ≤ n → drop n (xs ++ ys) ≡ drop (n - length xs) ys
  drop-append_more n [] ys h = ap (λ k. drop k ys) (omega arith)
  drop-append_more zero (x ∷ xs) ys h = absurd (omega arith)
  drop-append_more (suc n) (x ∷ xs) ys h =
      drop-append_more n xs ys (omega arith) ∙ ap (λ k. drop k ys) (omega arith)

  pub get_or-drop : (i j : ℕ) (d : A) (xs : List A) → get_or (drop i xs) j d ≡ get_or xs (i + j) d
  get_or-drop zero j d xs = ap (λ k. get_or xs k d) (omega arith)
  get_or-drop (suc i) j d [] = refl
  get_or-drop (suc i) j d (x ∷ xs) =
      get_or-drop i j d xs ∙ ap (λ k. get_or (x ∷ xs) k d) {x = suc (i + j)} (omega arith)

  pub get_or-append :
      (xs ys : List A) (j : ℕ) (d : A) → get_or (xs ++ ys) (length xs + j) d ≡ get_or ys j d
  get_or-append [] ys j d = ap (λ k. get_or ys k d) (omega arith)
  get_or-append (x ∷ xs) ys j d =
      ap (λ k. get_or (x ∷ (xs ++ ys)) k d) {y = suc (length xs + j)} (omega arith)
      ∙ get_or-append xs ys j d

  pub append_cancel :
      (xs ys : List A) {us vs : List A}
      → length xs ≡ length ys
      → xs ++ us ≡ ys ++ vs
      → (xs ≡ ys) × (us ≡ vs)
  append_cancel xs ys {us} {vs} h e = (
    sym (take-append (length xs) xs us refl)
        ∙ ap (take (length xs)) e
        ∙ take-append (length xs) ys vs h,
    sym (drop-append (length xs) xs us refl)
        ∙ ap (drop (length xs)) e
        ∙ drop-append (length xs) ys vs h,
  )

  pub All-append_parts {κ} :
      (P : A → Type κ) (xs ys : List A) → All P (xs ++ ys) → All P xs × All P ys
  All-append_parts P [] ys h = (tt, h)
  All-append_parts P (x ∷ xs) ys h =
      let parts = All-append_parts P xs ys h.1 in ((h.0, parts.0), parts.1)

  -- What holds of both parts of a list, in either order, holds of the list.
  pub All-rotated {κ} :
      (P : A → Type κ) (i : ℕ) (xs : List A) → All P (drop i xs ++ take i xs) → All P xs
  All-rotated P i xs h =
      let parts = All-append_parts P (drop i xs) (take i xs) h in
      subst (All P) (take-append-drop i xs) (All-append P (take i xs) (drop i xs) parts.1 parts.0)
