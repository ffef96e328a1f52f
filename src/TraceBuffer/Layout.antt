-- ===== src/TraceBuffer/Layout.antt =====
-- Trace entries in memory, and ranges of them as lists.
use Prim.Native.Nat.add
use funtrace.Prelude.{
  ℕ, zero, suc, ◌+◌, ◌*◌, ◌<◌, ◌≡◌, refl, ap, ap₂, ◌∙◌, List, [], ◌∷◌, ◌++◌, ◌==◌, if◌then◌else◌,
  arith, length, set, get_or,
}

pub record TraceEntry : Type 0 where
  pub func : ℕ
  pub cycle : ℕ

-- What stands at each entry's address; never written is arbitrary.
abbrev pub Memory : Type 0
Memory = ℕ → TraceEntry

-- `sizeof(trace_entry)`
abbrev pub entry_size : ℕ
entry_size = 16

abbrev pub load : Memory → ℕ → TraceEntry
load mem a = mem a

abbrev pub store : Memory → ℕ → TraceEntry → Memory
store mem a e = λ x. if x == a then e else mem x

-- The `n` entries from address `a` on.
unfoldable pub entries_at : Memory → ℕ → ℕ → List TraceEntry
entries_at mem a zero = []
entries_at mem a (suc n) = load mem a ∷ entries_at mem (a + entry_size) n

pub length-entries_at : (mem : Memory) (a n : ℕ) → length (entries_at mem a n) ≡ n
unfolding entries_at
length-entries_at mem a zero = refl
length-entries_at mem a (suc n) = ap suc (length-entries_at mem (a + entry_size) n)

-- A write below a range leaves it alone.
entries_at-store_below :
    (mem : Memory) (a n x : ℕ) (e : TraceEntry)
    → x < a
    → entries_at (store mem x e) a n ≡ entries_at mem a n
unfolding entries_at
entries_at-store_below mem a zero x e h = refl
entries_at-store_below mem a (suc n) x e h =
    ap₂ ◌∷◌ (ground arith) (entries_at-store_below mem (a + entry_size) n x e (omega arith))

-- A write of entry `i` of a range is a write of element `i`.
pub entries_at-store :
    (mem : Memory) (a n i x : ℕ) (e : TraceEntry)
    → x ≡ a + entry_size * i
    → entries_at (store mem x e) a n ≡ set (entries_at mem a n) i e
unfolding entries_at
entries_at-store mem a zero i x e h = refl
entries_at-store mem a (suc n) zero x e h =
    ap₂ ◌∷◌ (ground arith) (entries_at-store_below mem (a + entry_size) n x e (omega arith))
entries_at-store mem a (suc n) (suc i) x e h =
    ap₂ ◌∷◌ (ground arith) (entries_at-store mem (a + entry_size) n i x e (omega arith))

-- A range in two parts.
pub entries_at-split :
    (mem : Memory) (a m n : ℕ)
    → entries_at mem a (m + n) ≡ entries_at mem a m ++ entries_at mem (a + entry_size * m) n
unfolding entries_at
entries_at-split mem a zero n = ap₂ (entries_at mem) (omega arith) (omega arith)
entries_at-split mem a (suc m) n = rw (add.suc m n) (
    ap (λ l. load mem a ∷ l)
      (entries_at-split mem (a + entry_size) m n
        ∙ ap (λ x. entries_at mem (a + entry_size) m ++ entries_at mem x n) next))
  where
    next : a + entry_size + entry_size * m ≡ a + entry_size * suc m
    next = omega arith

pub get_or-entries_at :
    (mem : Memory) (a n i : ℕ) (d : TraceEntry)
    → i < n
    → get_or (entries_at mem a n) i d ≡ load mem (a + entry_size * i)
unfolding entries_at
get_or-entries_at mem a zero i d h = absurd (omega arith)
get_or-entries_at mem a (suc n) zero d h = ap mem (omega arith)
get_or-entries_at mem a (suc n) (suc i) d h =
    get_or-entries_at mem (a + entry_size) n i d (omega arith) ∙ ap mem (omega arith)
