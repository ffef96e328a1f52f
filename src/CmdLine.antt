-- ===== src/CmdLine.antt =====
-- `get_cmdline` of funtrace.cpp: the program's command line, with spaces for its nulls.
mod Tests
use funtrace.Prelude.{
  ℕ, zero, suc, ◌+◌, ◌-◌, ◌≤◌, ◌<◌, ◌≡◌, refl, ap, sym, ◌∙◌, Option, none, some, List, [], ◌∷◌,
  ◌++◌, arith, ◌==◌, if◌then◌else◌, length, take, All, length-append, take-append, append_assoc,
}

abbrev pub unknown_cmdline : List ℕ
unknown_cmdline = b'U' ∷ b'N' ∷ b'K' ∷ b'N' ∷ b'O' ∷ b'W' ∷ b'N' ∷ []

-- The loop over the buffer.
unfoldable pub nulls_to_spaces : List ℕ → List ℕ
nulls_to_spaces [] = []
nulls_to_spaces (c ∷ buffer) = (if c == 0 then b' ' else c) ∷ nulls_to_spaces buffer

-- What /proc/self/cmdline holds, if it opens. An empty one gives a range that ends before it
-- starts: `none`.
unfoldable pub get_cmdline : Option (List ℕ) → Option (List ℕ)
get_cmdline none = some unknown_cmdline
get_cmdline (some []) = none
get_cmdline (some (c ∷ buffer)) = some (take (length buffer) (nulls_to_spaces (c ∷ buffer)))

-- The arguments, each with a null behind it; the same with a space between two.
abbrev pub terminated : List (List ℕ) → List ℕ
terminated [] = []
terminated (a ∷ args) = a ++ (0 ∷ terminated args)

abbrev pub joined : List ℕ → List (List ℕ) → List ℕ
joined a [] = a
joined a (b ∷ bs) = a ++ (b' ' ∷ joined b bs)

nulls_to_spaces-append :
    (a buffer : List ℕ)
    → All (λ c. 1 ≤ c) a
    → nulls_to_spaces (a ++ buffer) ≡ a ++ nulls_to_spaces buffer
unfolding nulls_to_spaces
nulls_to_spaces-append [] buffer h = refl
nulls_to_spaces-append (c ∷ a) buffer h = ground (arith, nulls_to_spaces-append a buffer h.1)

nulls_to_spaces-joined :
    (a : List ℕ) (args : List (List ℕ))
    → All (λ c. 1 ≤ c) a
    → All (All (λ c. 1 ≤ c)) args
    → nulls_to_spaces (terminated (a ∷ args)) ≡ joined a args ++ b' ' ∷ []
unfolding nulls_to_spaces
nulls_to_spaces-joined a [] h k = nulls_to_spaces-append a (0 ∷ []) h
nulls_to_spaces-joined a (b ∷ bs) h k =
    nulls_to_spaces-append a (0 ∷ terminated (b ∷ bs)) h
    ∙ ap (λ l. a ++ b' ' ∷ l) (nulls_to_spaces-joined b bs k.0 k.1)
    ∙ sym (append_assoc a (b' ' ∷ joined b bs) (b' ' ∷ []))

length-nulls_to_spaces : (buffer : List ℕ) → length (nulls_to_spaces buffer) ≡ length buffer
unfolding nulls_to_spaces
length-nulls_to_spaces [] = refl
length-nulls_to_spaces (c ∷ buffer) = ap suc (length-nulls_to_spaces buffer)

without_last :
    (buffer : List ℕ)
    → 1 ≤ length buffer
    → get_cmdline (some buffer) ≡ some (take (length buffer - 1) (nulls_to_spaces buffer))
unfolding get_cmdline
without_last [] h = absurd (omega arith)
without_last (c ∷ buffer) h = ap (λ n. some (take n (nulls_to_spaces (c ∷ buffer)))) (omega arith)

-- The arguments of a program, each ended by a null and without one inside, come out with one space
-- between two of them and none behind the last.
pub get_cmdline-joined :
    (a : List ℕ) (args : List (List ℕ))
    → All (λ c. 1 ≤ c) a
    → All (All (λ c. 1 ≤ c)) args
    → get_cmdline (some (terminated (a ∷ args))) ≡ some (joined a args)
get_cmdline-joined a args h k =
    without_last (terminated (a ∷ args)) (omega (arith, length-append a (0 ∷ terminated args)))
    ∙ ap some (
        ap (take (length (terminated (a ∷ args)) - 1)) spaced
        ∙ take-append (length (terminated (a ∷ args)) - 1) (joined a args) (b' ' ∷ []) sizes)
  where
    spaced : nulls_to_spaces (terminated (a ∷ args)) ≡ joined a args ++ b' ' ∷ []
    spaced = nulls_to_spaces-joined a args h k

    sizes : length (terminated (a ∷ args)) - 1 ≡ length (joined a args)
    sizes = omega (
      arith,
      ap length spaced,
      length-nulls_to_spaces (terminated (a ∷ args)),
      length-append (joined a args) (b' ' ∷ []),
    )
