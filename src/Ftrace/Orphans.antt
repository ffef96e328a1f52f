-- ===== src/Ftrace/Orphans.antt =====
-- The tracer instances that processes have left behind, which the ftrace handler of funtrace.cpp
-- removes when it ends. The names in the directory and what `kill` answers come from outside.
use funtrace.Prelude.{
  ℕ, ◌+◌, ◌-◌, ◌*◌, ◌%◌, ◌^◌, ◌<◌, ◌≡◌, Bool, true, false, not, ◌&&◌, ◌||◌, Option, none, some,
  List, [], ◌∷◌, ◌++◌, All, leb, ◌==◌, if◌then◌else◌, filter, min,
}
use funtrace.Ftrace.Timestamp.{decimal, IsDigit}

-- What `kill(pid, 0)` returns: 0, or -1 with EPERM or with another error.
pub data KillResult : Type 0 where
  sent : KillResult
  not_permitted : KillResult
  failed : KillResult

abbrev pub is_pid_alive : KillResult → Bool
is_pid_alive KillResult.sent = true
is_pid_alive KillResult.not_permitted = true
is_pid_alive KillResult.failed = false

-- "funtrace."
abbrev pub instance_prefix : List ℕ
instance_prefix = b'f' ∷ b'u' ∷ b'n' ∷ b't' ∷ b'r' ∷ b'a' ∷ b'c' ∷ b'e' ∷ b'.' ∷ []

-- What follows a prefix that `strncmp` finds.
unfoldable pub after_prefix : List ℕ → List ℕ → Option (List ℕ)
after_prefix [] name = some name
after_prefix (p ∷ ps) [] = none
after_prefix (p ∷ ps) (c ∷ name) = let rest = after_prefix ps name in if p == c then rest else none

-- `strtol` in base 10: spaces, a sign, digits; where there is no digit, nothing is read.
abbrev pub is_digit : ℕ → Bool
is_digit c = leb b'0' c && leb c b'9'

unfoldable pub skip_spaces : List ℕ → List ℕ
skip_spaces [] = []
skip_spaces (c ∷ s) =
    let rest = skip_spaces s in if c == b' ' || (leb 9 c && leb c 13) then rest else c ∷ s

unfoldable pub read_digits : ℕ → List ℕ → ℕ × List ℕ
read_digits n [] = (n, [])
read_digits n (c ∷ s) =
    let rest = read_digits (n * 10 + (c - b'0')) s in if is_digit c then rest else (n, c ∷ s)

abbrev pub starts_digit : List ℕ → Bool
starts_digit [] = false
starts_digit (c ∷ s) = is_digit c

-- The number, as 64 bits, and `*end`.
unfoldable pub after_sign : Bool → List ℕ → List ℕ → ℕ × List ℕ
after_sign minus whole s =
    let (n, end) = read_digits 0 s in
    if starts_digit s
    then ((if minus then (2 ^ 64 - min n (2 ^ 63)) % 2 ^ 64 else min n (2 ^ 63 - 1)), end)
    else (0, whole)

abbrev pub sign_of : List ℕ → List ℕ → ℕ × List ℕ
sign_of whole [] = (0, whole)
sign_of whole (c ∷ s) =
    if c == b'-'
    then after_sign true whole s
    else if c == b'+'
    then after_sign false whole s
    else after_sign false whole (c ∷ s)

unfoldable pub strtol : List ℕ → ℕ × List ℕ
strtol s = sign_of s (skip_spaces s)

abbrev pub is_end : List ℕ → Bool
is_end [] = true
is_end (c ∷ s) = false

module _ (kill : ℕ → KillResult) where
  -- Whether the process of a name is gone. The number goes to `kill` as an `int`, of 32 bits.
  unfoldable pub is_orphan : List ℕ → Bool
  is_orphan name = elim (after_prefix instance_prefix name) [
    | none ↦ false
    | some s ↦ is_end (strtol s).1 && not (is_pid_alive (kill ((strtol s).0 % 2 ^ 32)))
  ]

  -- The names that `rmdir` gets, in the instances' directory; `none` is a directory that cannot be
  -- opened.
  unfoldable pub remove_orphan_tracer_instances : Option (List (List ℕ)) → List (List ℕ)
  remove_orphan_tracer_instances none = []
  remove_orphan_tracer_instances (some names) = filter is_orphan names

-- A name in the directory: that of the instance of a process, by the digits of its number, or
-- another, which begins in another way.
pub data Name : Type 0 where
  instance_of : List ℕ → Name
  other : List ℕ → Name

abbrev pub text : Name → List ℕ
text (Name.instance_of ds) = instance_prefix ++ ds
text (Name.other s) = s

abbrev has_digit : List ℕ → Bool
has_digit [] = false
has_digit (d ∷ ds) = true

abbrev pub IsName : Name → Type 0
IsName (Name.instance_of ds) = (has_digit ds ≡ true) × All IsDigit ds × (decimal 0 ds < 2 ^ 31)
IsName (Name.other s) = after_prefix instance_prefix s ≡ none

-- The process of a name is gone.
abbrev pub is_gone : (ℕ → KillResult) → Name → Bool
is_gone kill (Name.instance_of ds) = not (is_pid_alive (kill (decimal 0 ds)))
is_gone kill (Name.other s) = false
