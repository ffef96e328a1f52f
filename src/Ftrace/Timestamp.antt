-- ===== src/Ftrace/Timestamp.antt =====
-- The time stamp of a line of ftrace: the digits between a space and the first ": ".
use funtrace.Prelude.{
  ℕ, ◌+◌, ◌-◌, ◌*◌, ◌/◌, ◌%◌, ◌^◌, ◌≤◌, ◌<◌, ◌≡◌, refl, ap, ap₂, sym, ◌∙◌, false, ◌&&◌, some, List,
  [], ◌∷◌, ◌++◌, arith, ◌==◌, All, append_assoc,
}
use native.Mathlib.Nat.{add-mul-mod_self_left, mod-add-div}
use funtrace.Ftrace.{starts_space, before_colon, digits_before, parse_timestamp}

-- The number that digits write, the most significant first.
abbrev pub decimal : ℕ → List ℕ → ℕ
decimal n [] = n
decimal n (d ∷ ds) = decimal (n * 10 + (d - b'0')) ds

abbrev pub IsDigit : ℕ → Type 0
IsDigit d = (b'0' ≤ d) × (d ≤ b'9')

-- A text without a null and without ": ".
abbrev pub HasNoColon : List ℕ → Type 0
HasNoColon [] = Unit
HasNoColon (c ∷ s) = (1 ≤ c) × ((c == b':' && starts_space s) ≡ false) × HasNoColon s

-- A list backwards, in front of another.
abbrev back_onto : List ℕ → List ℕ → List ℕ
back_onto [] acc = acc
back_onto (c ∷ s) acc = back_onto s (c ∷ acc)

back_onto-append_left :
    (xs ys acc : List ℕ) → back_onto (xs ++ ys) acc ≡ back_onto ys (back_onto xs acc)
back_onto-append_left [] ys acc = refl
back_onto-append_left (x ∷ xs) ys acc = back_onto-append_left xs ys (x ∷ acc)

back_onto-append : (xs ys acc : List ℕ) → back_onto xs (ys ++ acc) ≡ back_onto xs ys ++ acc
back_onto-append [] ys acc = refl
back_onto-append (x ∷ xs) ys acc = back_onto-append xs (x ∷ ys) acc

back_onto-All : (P : ℕ → Type 0) (xs acc : List ℕ) → All P xs → All P acc → All P (back_onto xs acc)
back_onto-All P [] acc h k = k
back_onto-All P (x ∷ xs) acc h k = back_onto-All P xs (x ∷ acc) h.1 (h.0, k)

before_colon-lem :
    (seen w rest : List ℕ)
    → HasNoColon w
    → before_colon seen (w ++ b':' ∷ b' ' ∷ rest) ≡ some (back_onto w seen)
unfolding before_colon
before_colon-lem seen [] rest h = refl
before_colon-lem seen (c ∷ []) rest h = ground arith
before_colon-lem seen (c ∷ d ∷ w) rest h =
    ground (arith, before_colon-lem (c ∷ seen) (d ∷ w) rest h.2)

-- The number that digits write, the least significant first.
abbrev value_back : List ℕ → ℕ
value_back [] = 0
value_back (d ∷ ds) = (d - b'0') + 10 * value_back ds

value_back-back_onto :
    (ds acc : List ℕ) → value_back (back_onto ds acc) ≡ decimal (value_back acc) ds
value_back-back_onto [] acc = refl
value_back-back_onto (d ∷ ds) acc =
    value_back-back_onto ds (d ∷ acc) ∙ ap (λ n. decimal n ds) (omega arith)

mod_step : (w a b v : ℕ) → (a % w + b % w * v) % w ≡ (a + b * v) % w
mod_step w a b v =
    sym (add-mul-mod_self_left (a % w + b % w * v) w (a / w + b / w * v))
    ∙ ap (λ n. n % w) (sums (a % w) (b % w) (a / w) (b / w) (mod-add-div a w) (mod-add-div b w))
  where
    sums :
        (a₁ b₁ a₂ b₂ : ℕ)
        → a₁ + w * a₂ ≡ a
        → b₁ + w * b₂ ≡ b
        → a₁ + b₁ * v + w * (a₂ + b₂ * v) ≡ a + b * v
    sums a₁ b₁ a₂ b₂ e f = spread ∙ ap₂ (λ x y. x + y * v) e f
      where
        spread : a₁ + b₁ * v + w * (a₂ + b₂ * v) ≡ a₁ + w * a₂ + (b₁ + w * b₂) * v
        spread = grind arith

digits_before-value :
    (time mult : ℕ) (r s : List ℕ)
    → All IsDigit r
    → time < 2 ^ 64
    → digits_before time mult (r ++ b' ' ∷ s) ≡ (time + mult * value_back r) % 2 ^ 64
unfolding digits_before
digits_before-value time mult [] s h k = omega arith
digits_before-value time mult (c ∷ r) s h k = ground (
  arith,
  h.0,
  rest (
      digits_before-value ((time + (c - b'0') * mult) % 2 ^ 64) (mult * 10 % 2 ^ 64) r s h.1
        (omega arith)),
)
  where
    spread :
        time + (c - b'0') * mult + mult * 10 * value_back r
        ≡ time + mult * (c - b'0' + 10 * value_back r)
    spread = grind arith

    rest :
        (digits_before ((time + (c - b'0') * mult) % 2 ^ 64) (mult * 10 % 2 ^ 64) (r ++ b' ' ∷ s)
          ≡ ((time + (c - b'0') * mult) % 2 ^ 64 + mult * 10 % 2 ^ 64 * value_back r) % 2 ^ 64)
        → digits_before ((time + (c - b'0') * mult) % 2 ^ 64) (mult * 10 % 2 ^ 64) (r ++ b' ' ∷ s)
          ≡ (time + mult * (c - b'0' + 10 * value_back r)) % 2 ^ 64
    rest e =
        e
        ∙ mod_step (2 ^ 64) (time + (c - b'0') * mult) (mult * 10) (value_back r)
        ∙ ap (λ n. n % 2 ^ 64) spread

-- The time stamp of a line is the number that the digits in front of its first ": " write, modulo
-- 2^64, where a space stands in front of the digits and no null in front of that ": ".
pub parse_timestamp-decimal :
    (before digits rest : List ℕ)
    → HasNoColon (before ++ b' ' ∷ digits)
    → All IsDigit digits
    → parse_timestamp (before ++ (b' ' ∷ (digits ++ (b':' ∷ b' ' ∷ rest))))
      ≡ decimal 0 digits % 2 ^ 64
unfolding parse_timestamp
parse_timestamp-decimal before digits rest h k =
    ap (λ line. parse_timestamp line)
      (sym (append_assoc before (b' ' ∷ digits) (b':' ∷ b' ' ∷ rest)))
    ∙ rw (before_colon-lem [] (before ++ b' ' ∷ digits) rest h, parse_timestamp)
        (ap (digits_before 0 1) backwards
          ∙ digits_before-value 0 1 (back_onto digits []) (back_onto before [])
              (back_onto-All IsDigit digits [] k tt) (omega arith)
          ∙ ap (λ n. n % 2 ^ 64) (omega (arith, value_back-back_onto digits [])))
  where
    backwards :
        back_onto (before ++ b' ' ∷ digits) [] ≡ back_onto digits [] ++ b' ' ∷ back_onto before []
    backwards =
        back_onto-append_left before (b' ' ∷ digits) []
        ∙ back_onto-append digits [] (b' ' ∷ back_onto before [])
