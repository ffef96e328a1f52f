-- ===== src/Funcount/Address.antt =====
-- The parts of a 48-bit address in funcount.cpp, and the address made of them again.
use funtrace.Prelude.{
  ℕ, ◌-◌, ◌*◌, ◌/◌, ◌%◌, ◌^◌, ◌≤◌, ◌<◌, ◌≡◌, Option, none, some, arith, ◌==◌, if◌then◌else◌,
  bit_and, bit_or, bit_or_high, ◌+◌, ap, ◌∙◌, bit_and_low_sixteen,
}

abbrev pub page_size : ℕ
page_size = 2 ^ 16

abbrev pub page_bits_mask : ℕ
page_bits_mask = page_size - 1

unfoldable pub high_bits : ℕ → Option ℕ
high_bits address =
    let bits = address / 2 ^ 32 in if bit_and bits page_bits_mask == bits then some bits else none

unfoldable pub mid_bits : ℕ → ℕ
mid_bits address = bit_and (address / 2 ^ 16) page_bits_mask

unfoldable pub low_bits : ℕ → ℕ
low_bits address = bit_and address page_bits_mask

-- The address that the report prints for a count.
unfoldable pub address_of : ℕ → ℕ → ℕ → ℕ
address_of hi mid lo = bit_or (bit_or (hi * 2 ^ 32) (mid * 2 ^ 16)) (lo * 8)

pub high_bits-eq : (a : ℕ) → a < 2 ^ 48 → high_bits a ≡ some (a / 2 ^ 32)
unfolding high_bits
high_bits-eq a h = ground (arith, bit_and_low_sixteen (a / 2 ^ 32))

pub high_bits_fails : (a : ℕ) → 2 ^ 48 ≤ a → high_bits a ≡ none
unfolding high_bits
high_bits_fails a h = ground (arith, bit_and_low_sixteen (a / 2 ^ 32))

pub mid_bits-eq : (a : ℕ) → mid_bits a ≡ a / 2 ^ 16 % 2 ^ 16
unfolding mid_bits
mid_bits-eq a = bit_and_low_sixteen (a / 2 ^ 16)

pub low_bits-eq : (a : ℕ) → low_bits a ≡ a % 2 ^ 16
unfolding low_bits
low_bits-eq a = bit_and_low_sixteen a

pub address_of-eq :
    (hi mid lo : ℕ)
    → mid < 2 ^ 16
    → lo < 2 ^ 13
    → address_of hi mid lo ≡ hi * 2 ^ 32 + mid * 2 ^ 16 + lo * 8
unfolding address_of
address_of-eq hi mid lo m l =
    ap (λ b. bit_or b (lo * 8)) (bit_or_high 32 (mid * 2 ^ 16) hi (omega arith) ∙ factor)
    ∙ bit_or_high 16 (lo * 8) (hi * 2 ^ 16 + mid) (omega arith)
    ∙ omega arith
  where
    factor : hi * 2 ^ 32 + mid * 2 ^ 16 ≡ (hi * 2 ^ 16 + mid) * 2 ^ 16
    factor = omega arith
