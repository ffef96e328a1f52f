-- ===== src/Config.antt =====
-- The configuration of funtrace.cpp by environment variables: `env_int`, over the C library's
-- `atoi`, and `default_log_buf_size` (a static initialised from `env_int` at its first call).
mod Tests
use Prim.Native.String.{String}
use funtrace.Prelude.{
  ℕ, zero, suc, ◌+◌, ◌-◌, ◌*◌, ◌^◌, Bool, true, false, ◌&&◌, ◌||◌, Option, none, some, List, [],
  ◌∷◌, ltb, leb, ◌==◌, if◌then◌else◌, ℤ, pos, negsuc,
}

-- `isspace` in the C locale
is_space : ℕ → Bool
is_space c = c == 32 || (leb 9 c && leb c 13)

unfoldable pub is_digit : ℕ → Bool
is_digit c = leb b'0' c && leb c b'9'

-- The digits at the front of a text, as a number.
digits_value : ℕ → List ℕ → ℕ
digits_value acc [] = acc
digits_value acc (c ∷ s) =
    let rest = digits_value (acc * 10 + (c - b'0')) s in if is_digit c then rest else acc

negate : ℕ → ℤ
negate zero = pos 0
negate (suc n) = negsuc n

signed_value : List ℕ → ℤ
unfolding digits_value negate
signed_value [] = pos 0
signed_value (c ∷ s) =
    if c == b'-'
    then negate (digits_value 0 s)
    else if c == b'+'
    then pos (digits_value 0 s)
    else pos (digits_value 0 (c ∷ s))

-- `atoi`; a value that does not fit an `int` is not cut to one.
atoi : List ℕ → ℤ
unfolding is_space is_digit signed_value
atoi [] = pos 0
atoi (c ∷ s) = let rest = atoi s in if is_space c then rest else signed_value (c ∷ s)

-- The process environment.
abbrev pub Env : Type 0
Env = String → Option (List ℕ)

unfoldable pub env_int : Env → String → ℤ → ℤ
unfolding atoi
env_int getenv env default_value = elim (getenv env) [ none ↦ default_value | some val ↦ atoi val ]

-- FUNTRACE_LOG_BUF_SIZE, FUNTRACE_GC_MAX_AGE_MS, FUNTRACE_GC_PERIOD_MS, FUNTRACE_FTRACE_EVENTS_IN_BUF
abbrev pub funtrace_log_buf_size : ℤ
funtrace_log_buf_size = pos 20

abbrev pub funtrace_gc_max_age_ms : ℤ
funtrace_gc_max_age_ms = pos 300

abbrev pub funtrace_gc_period_ms : ℤ
funtrace_gc_period_ms = funtrace_gc_max_age_ms

abbrev pub funtrace_ftrace_events_in_buf : ℤ
funtrace_ftrace_events_in_buf = pos 20000

unfoldable pub default_log_buf_size : Env → ℤ
default_log_buf_size getenv = env_int getenv "FUNTRACE_LOG_BUF_SIZE" funtrace_log_buf_size
