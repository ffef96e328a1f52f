-- ===== src/Hooks/Decode.antt =====
-- The kinds of events, by the description of the code pointer's flags in README.md ("Funtrace file
-- format"): bits 63, 62 and 61.
use funtrace.Prelude.{
  ℕ, ◌+◌, ◌*◌, ◌/◌, ◌%◌, ◌^◌, ◌<◌, ◌≡◌, ◌&&◌, ◌==◌, if◌then◌else◌, arith, bit_or, bit_or_disjoint,
}
use funtrace.TraceBuffer.Layout.{TraceEntry}
use funtrace.TraceBuffer.Refine.{entry_of}

pub data Kind : Type 0 where
  call call_returning_upon_throw returns returns_with_caller_address catches : Kind

pub record TraceEvent : Type 0 where
  pub kind : Kind
  pub address : ℕ
  pub time : ℕ

abbrev pub kind_of : ℕ → Kind
kind_of func =
    if (func / 2 ^ 63 % 2 == 1) && (func / 2 ^ 62 % 2 == 1)
    then catches
    else if func / 2 ^ 63 % 2 == 1
    then returns
    else if func / 2 ^ 62 % 2 == 1
    then returns_with_caller_address
    else if func / 2 ^ 61 % 2 == 1
    then call_returning_upon_throw
    else call

unfoldable pub decode : TraceEntry → TraceEvent
decode e = record { kind = kind_of e.func; address = e.func % 2 ^ 61; time = e.cycle }

-- An address of 61 bits and flags above it do not mix.
func-eq : (ptr c : ℕ) → ptr < 2 ^ 61 → bit_or ptr (c * 2 ^ 61) ≡ ptr + c * 2 ^ 61
func-eq ptr c h = bit_or_disjoint 61 ptr c h

module _ (ptr time : ℕ) (user : ptr < 2 ^ 61) where
  pub decode_call :
      decode (entry_of ptr 0 time) ≡ record { kind = call; address = ptr; time = time }
  unfolding decode
  decode_call = ground (arith, func-eq ptr 0)

  pub decode_call_returning :
      decode (entry_of ptr (2 ^ 61) time)
      ≡ record { kind = call_returning_upon_throw; address = ptr; time = time }
  unfolding decode
  decode_call_returning = ground (arith, func-eq ptr 1)

  pub decode_return :
      decode (entry_of ptr (2 ^ 63) time) ≡ record { kind = returns; address = ptr; time = time }
  unfolding decode
  decode_return = ground (arith, func-eq ptr 4)

  pub decode_catch :
      decode (entry_of ptr (bit_or (2 ^ 63) (2 ^ 62)) time)
      ≡ record { kind = catches; address = ptr; time = time }
  unfolding decode
  decode_catch = ground (arith, func-eq ptr 6)
