-- ===== src/Prelude/Bits.antt =====
-- `bit_and` and `bit_or` as arithmetic, at every width.
use Prim.Native.Nat.{
  ℕ, zero, suc, ◌+◌, ◌-◌, ◌*◌, ◌/◌, ◌%◌, ◌^◌, ◌≤◌, ◌<◌, min, max, bit_and, bit_or, digits,
  bit_and-bitwise, bit_or-bitwise,
}
use Prim.Native.Nat.add
use mathlib.Core.Path.{◌≡◌, refl, sym, ap, ap₂, ◌∙◌}
use native.Mathlib.Nat.{pow-suc}
use native.Mathlib.Omega.{arith}

-- The digit recursion does not depend on its count, once that is large enough.
digits_enough :
    (z : ℕ → ℕ) (f : ℕ → ℕ → ℕ) (m n a b : ℕ) → a ≤ m → a ≤ n → digits z f m a b ≡ digits z f n a b
digits_enough z f zero zero zero b h k = refl
digits_enough z f zero (suc n) zero b h k = refl
digits_enough z f (suc m) zero zero b h k = refl
digits_enough z f (suc m) (suc n) zero b h k = refl
digits_enough z f zero n (suc a) b h k = absurd (omega arith)
digits_enough z f (suc m) zero (suc a) b h k = absurd (omega arith)
digits_enough z f (suc m) (suc n) (suc a) b h k =
    ap (λ t. t * 2 + f (suc a % 2) (b % 2))
      (digits_enough z f m n (suc a / 2) (b / 2) (omega arith) (omega arith))

pub bit_and_halves : (a b : ℕ) → bit_and a b ≡ 2 * bit_and (a / 2) (b / 2) + min (a % 2) (b % 2)
bit_and_halves zero b = omega (arith, bit_and-bitwise 0 b, bit_and-bitwise 0 (b / 2))
bit_and_halves (suc a) b = omega (
  arith,
  bit_and-bitwise (suc a) b,
  bit_and-bitwise (suc a / 2) (b / 2),
  digits_enough (λ _. 0) min a (suc a / 2) (suc a / 2) (b / 2) (omega arith) (omega arith),
)

pub bit_or_halves : (a b : ℕ) → bit_or a b ≡ 2 * bit_or (a / 2) (b / 2) + max (a % 2) (b % 2)
bit_or_halves zero b = omega (arith, bit_or-bitwise 0 b, bit_or-bitwise 0 (b / 2))
bit_or_halves (suc a) b = omega (
  arith,
  bit_or-bitwise (suc a) b,
  bit_or-bitwise (suc a / 2) (b / 2),
  digits_enough (λ y. y) max a (suc a / 2) (suc a / 2) (b / 2) (omega arith) (omega arith),
)

-- The law for the lowest digit of both.
bit_and-double :
    (x y a b c d : ℕ)
    → c ≤ 1
    → d ≤ 1
    → x ≡ 2 * a + c
    → y ≡ 2 * b + d
    → bit_and x y ≡ 2 * bit_and a b + min c d
bit_and-double x y a b c d hc hd ex ey =
    bit_and_halves x y
    ∙ ap₂ (λ (s t : ℕ). 2 * s + t) (ap₂ bit_and (omega arith) (omega arith))
        (ap₂ min (omega arith) (omega arith))

bit_or-double :
    (x y a b c d : ℕ)
    → c ≤ 1
    → d ≤ 1
    → x ≡ 2 * a + c
    → y ≡ 2 * b + d
    → bit_or x y ≡ 2 * bit_or a b + max c d
bit_or-double x y a b c d hc hd ex ey =
    bit_or_halves x y
    ∙ ap₂ (λ (s t : ℕ). 2 * s + t) (ap₂ bit_or (omega arith) (omega arith))
        (ap₂ max (omega arith) (omega arith))

pub two-pow-suc : (n : ℕ) → 2 ^ suc n ≡ 2 * 2 ^ n
two-pow-suc n = omega (arith, pow-suc 2 n)

pub two-pow-pos : (n : ℕ) → 1 ≤ 2 ^ n
two-pow-pos zero = omega arith
two-pow-pos (suc n) = omega (arith, two-pow-pos n, two-pow-suc n)

pub two-pow-add : (a b : ℕ) → 2 ^ (a + b) ≡ 2 ^ a * 2 ^ b
two-pow-add zero b = ap (λ t. 2 ^ t) (add.zero b) ∙ omega arith
two-pow-add (suc a) b =
    ap (λ t. 2 ^ t) (add.suc a b)
    ∙ omega (arith, two-pow-suc (a + b), two-pow-add a b, ap (λ (t : ℕ). t * 2 ^ b) (two-pow-suc a))

-- All ones.
pub bit_and_ones : (j m : ℕ) → m < 2 ^ j → bit_and m (2 ^ j - 1) ≡ m
bit_and_ones zero zero h = bit_and-bitwise 0 0
bit_and_ones zero (suc m) h = absurd (omega arith)
bit_and_ones (suc j) m h = omega (
  arith,
  two-pow-suc j,
  bit_and-double m (2 ^ suc j - 1) (m / 2) (2 ^ j - 1) (m % 2) 1 (omega arith) (omega arith)
      (omega arith) (omega (arith, two-pow-suc j, two-pow-pos j)),
  bit_and_ones j (m / 2) (omega (arith, two-pow-suc j)),
)

-- All ones but a zero at bit `k`: that bit is cleared, and the others are kept.
bit_and_hole :
    (k j m b r : ℕ)
    → b ≤ 1
    → r < 2 ^ k
    → m < 2 ^ j
    → bit_and ((2 * m + b) * 2 ^ k + r) ((2 ^ j - 1) * 2 * 2 ^ k + (2 ^ k - 1)) ≡ 2 * m * 2 ^ k + r
bit_and_hole zero j m b r hb hr hm = omega (
  arith,
  bit_and-double ((2 * m + b) * 1 + r) ((2 ^ j - 1) * 2 * 1 + 0) m (2 ^ j - 1) b 0 hb (omega arith)
      (omega arith) (omega arith),
  bit_and_ones j m hm,
)
bit_and_hole (suc k) j m b r hb hr hm = omega (
  arith,
  bit_and-double ((2 * m + b) * 2 ^ suc k + r) ((2 ^ j - 1) * 2 * 2 ^ suc k + (2 ^ suc k - 1))
      ((2 * m + b) * 2 ^ k + r / 2) ((2 ^ j - 1) * 2 * 2 ^ k + (2 ^ k - 1)) (r % 2) 1 (omega arith)
      (omega arith) (omega (arith, scaled (2 * m + b)))
      (omega (arith, scaled ((2 ^ j - 1) * 2), two-pow-suc k, two-pow-pos k)),
  bit_and_hole k j m b (r / 2) hb (omega (arith, two-pow-suc k)) hm,
  scaled (2 * m),
)
  where
    scaled : (c : ℕ) → c * 2 ^ suc k ≡ 2 * (c * 2 ^ k)
    scaled c = omega (arith, ap (λ (t : ℕ). c * t) (two-pow-suc k))

complement : (p q : ℕ) → 1 ≤ p → 1 ≤ q → q * p ≡ 2 ^ 63 → 2 ^ 64 - 1 - p ≡ (q - 1) * 2 * p + (p - 1)
complement p zero hp hq e = absurd (omega arith)
complement p (suc q) hp hq e = split ∙ ap (λ t. t * 2 * p + (p - 1)) less
  where
    less : q ≡ suc q - 1
    less = omega arith

    split : 2 ^ 64 - 1 - p ≡ q * 2 * p + (p - 1)
    split = omega arith

-- `x & ~(1 << k)` on `uint64_t`, for `x` split at bit `k`.
pub bit_and_clear :
    (k m b r : ℕ)
    → k < 64
    → b ≤ 1
    → r < 2 ^ k
    → m < 2 ^ (63 - k)
    → bit_and ((2 * m + b) * 2 ^ k + r) (2 ^ 64 - 1 - 2 ^ k) ≡ 2 * m * 2 ^ k + r
bit_and_clear k m b r hk hb hr hm =
    ap (bit_and ((2 * m + b) * 2 ^ k + r)) mask ∙ bit_and_hole k (63 - k) m b r hb hr hm
  where
    sums : 63 - k + k ≡ 63
    sums = omega arith

    whole : 2 ^ (63 - k) * 2 ^ k ≡ 2 ^ 63
    whole = sym (two-pow-add (63 - k) k) ∙ ap (λ t. 2 ^ t) sums

    mask : 2 ^ 64 - 1 - 2 ^ k ≡ (2 ^ (63 - k) - 1) * 2 * 2 ^ k + (2 ^ k - 1)
    mask = complement (2 ^ k) (2 ^ (63 - k)) (two-pow-pos k) (two-pow-pos (63 - k)) whole

bit_or-zero : (n a : ℕ) → a ≤ n → bit_or a 0 ≡ a
bit_or-zero n zero h = bit_or-bitwise 0 0
bit_or-zero zero (suc a) h = absurd (omega arith)
bit_or-zero (suc n) (suc a) h =
    omega (arith, bit_or_halves (suc a) 0, bit_or-zero n (suc a / 2) (omega arith))

zero-bit_or : (b : ℕ) → bit_or 0 b ≡ b
zero-bit_or b = bit_or-bitwise 0 b

-- `x | (c << k)` is a sum where `x` fits the low `k` bits.
pub bit_or_disjoint : (k x c : ℕ) → x < 2 ^ k → bit_or x (c * 2 ^ k) ≡ x + c * 2 ^ k
bit_or_disjoint zero x c h = rw (one x (omega arith)) (zero-bit_or (c * 1) ∙ omega arith)
  where
    one : (y : ℕ) → y < 1 → y ≡ 0
    one y hy = omega arith
bit_or_disjoint (suc k) x c h = omega (
  arith,
  bit_or-double x (c * 2 ^ suc k) (x / 2) (c * 2 ^ k) (x % 2) 0 (omega arith) (omega arith)
      (omega arith) (omega (arith, scaled)),
  bit_or_disjoint k (x / 2) c (omega (arith, two-pow-suc k)),
  scaled,
)
  where
    scaled : c * 2 ^ suc k ≡ 2 * (c * 2 ^ k)
    scaled = omega (arith, ap (λ (t : ℕ). c * t) (two-pow-suc k))

bit_or-comm_below : (n a b : ℕ) → a ≤ n → bit_or a b ≡ bit_or b a
bit_or-comm_below n zero b h = zero-bit_or b ∙ sym (bit_or-zero b b (omega arith))
bit_or-comm_below zero (suc a) b h = absurd (omega arith)
bit_or-comm_below (suc n) (suc a) b h = omega (
  arith,
  bit_or_halves (suc a) b,
  bit_or_halves b (suc a),
  bit_or-comm_below n (suc a / 2) (b / 2) (omega arith),
)

-- `bit_or_disjoint`, with the high bits in front.
pub bit_or_high : (k x c : ℕ) → x < 2 ^ k → bit_or (c * 2 ^ k) x ≡ c * 2 ^ k + x
bit_or_high k x c h =
    bit_or-comm_below (c * 2 ^ k) (c * 2 ^ k) x (omega arith)
    ∙ bit_or_disjoint k x c h
    ∙ omega arith

-- `~x` on `uint64_t`
abbrev pub lognot : ℕ → ℕ
lognot x = 2 ^ 64 - 1 - x

pub zero-bit_and : (b : ℕ) → bit_and 0 b ≡ 0
zero-bit_and b = bit_and-bitwise 0 b

bit_and-zero_below : (n a : ℕ) → a ≤ n → bit_and a 0 ≡ 0
bit_and-zero_below n zero h = zero-bit_and 0
bit_and-zero_below zero (suc a) h = absurd (omega arith)
bit_and-zero_below (suc n) (suc a) h =
    omega (arith, bit_and_halves (suc a) 0, bit_and-zero_below n (suc a / 2) (omega arith))

pub bit_and-zero : (a : ℕ) → bit_and a 0 ≡ 0
bit_and-zero a = bit_and-zero_below a a (omega arith)

-- A mask of `j` ones above the `k` lowest bits clears those.
pub bit_and_high :
    (k j q r : ℕ)
    → r < 2 ^ k
    → q < 2 ^ j
    → bit_and (q * 2 ^ k + r) ((2 ^ j - 1) * 2 ^ k) ≡ q * 2 ^ k
bit_and_high zero j q r hr hq =
    ap₂ bit_and (omega arith) (omega arith) ∙ bit_and_ones j q hq ∙ omega arith
bit_and_high (suc k) j q r hr hq = omega (
  arith,
  bit_and-double (q * 2 ^ suc k + r) ((2 ^ j - 1) * 2 ^ suc k) (q * 2 ^ k + r / 2)
      ((2 ^ j - 1) * 2 ^ k) (r % 2) 0 (omega arith) (omega arith) (omega (arith, scaled q))
      (omega (arith, scaled (2 ^ j - 1))),
  bit_and_high k j q (r / 2) (omega (arith, two-pow-suc k)) hq,
  scaled q,
)
  where
    scaled : (c : ℕ) → c * 2 ^ suc k ≡ 2 * (c * 2 ^ k)
    scaled c = omega (arith, ap (λ (t : ℕ). c * t) (two-pow-suc k))

bit_and_low_fields : (k q r : ℕ) → r < 2 ^ k → bit_and (q * 2 ^ k + r) (2 ^ k - 1) ≡ r
bit_and_low_fields zero q r h = bit_and-zero (q * 1 + r) ∙ omega arith
bit_and_low_fields (suc k) q r h = omega (
  arith,
  bit_and-double (q * 2 ^ suc k + r) (2 ^ suc k - 1) (q * 2 ^ k + r / 2) (2 ^ k - 1) (r % 2) 1
      (omega arith) (omega arith) (omega (arith, scaled))
      (omega (arith, two-pow-suc k, two-pow-pos k)),
  bit_and_low_fields k q (r / 2) (omega (arith, two-pow-suc k)),
)
  where
    scaled : q * 2 ^ suc k ≡ 2 * (q * 2 ^ k)
    scaled = omega (arith, ap (λ (t : ℕ). q * t) (two-pow-suc k))

-- A mask of the 16 lowest bits is the remainder, and its complement clears them.
pub bit_and_low_sixteen : (x : ℕ) → bit_and x (2 ^ 16 - 1) ≡ x % 2 ^ 16
bit_and_low_sixteen x =
    ap (λ t. bit_and t (2 ^ 16 - 1)) parts
    ∙ bit_and_low_fields 16 (x / 2 ^ 16) (x % 2 ^ 16) (omega arith)
  where
    parts : x ≡ x / 2 ^ 16 * 2 ^ 16 + x % 2 ^ 16
    parts = omega arith

pub bit_and_high_sixteen :
    (x : ℕ) → x < 2 ^ 64 → bit_and x (lognot (2 ^ 16 - 1)) ≡ x / 2 ^ 16 * 2 ^ 16
bit_and_high_sixteen x h =
    ap (λ t. bit_and t (lognot (2 ^ 16 - 1))) parts
    ∙ bit_and_high 16 48 (x / 2 ^ 16) (x % 2 ^ 16) (omega arith) (omega arith)
  where
    parts : x ≡ x / 2 ^ 16 * 2 ^ 16 + x % 2 ^ 16
    parts = omega arith
