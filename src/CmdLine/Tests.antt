-- ===== src/CmdLine/Tests.antt =====
-- The command line of `p -v`, and the theorem at it.
use funtrace.Prelude.{◌≡◌, refl, some, none, [], ◌∷◌, arith}
use funtrace.CmdLine.{get_cmdline, get_cmdline-joined}

empty_cmdline : get_cmdline (some []) ≡ none
unfolding get_cmdline
empty_cmdline = refl

get_cmdline-joined_example :
    get_cmdline (some (b'p' ∷ 0 ∷ b'-' ∷ b'v' ∷ 0 ∷ [])) ≡ some (b'p' ∷ b' ' ∷ b'-' ∷ b'v' ∷ [])
get_cmdline-joined_example =
    get_cmdline-joined (b'p' ∷ []) ((b'-' ∷ b'v' ∷ []) ∷ []) (omega arith) (omega arith)
