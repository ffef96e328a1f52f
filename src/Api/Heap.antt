-- ===== src/Api/Heap.antt =====
-- The memory of a snapshot (funtrace.cpp, funtrace_pause_and_get_snapshot and
-- funtrace_free_snapshot): the object and an array for each trace, at the addresses that `new`
-- returns.
use funtrace.Prelude.{
  ℕ, ◌≤◌, ◌≡◌, refl, ap, ◌∙◌, true, false, Option, none, some, List, [], ◌∷◌, arith, ◌==◌,
  if◌then◌else◌, ◌>>=◌,
}
use funtrace.Registry.Pointers.{count}

-- The addresses that `new` returned and that were not deleted since.
abbrev pub Heap : Type 0
Heap = List ℕ

-- `new funtrace_snapshot`, and `new char[trace->buf_size]` for each trace.
unfoldable pub new_arrays : List ℕ → Heap → Heap
new_arrays [] heap = heap
new_arrays (copy ∷ copies) heap = new_arrays copies (copy ∷ heap)

unfoldable pub new_snapshot : ℕ → List ℕ → Heap → Heap
new_snapshot snapshot copies heap = new_arrays copies (snapshot ∷ heap)

take_out : ℕ → Heap → Option Heap
take_out p [] = none
take_out p (q ∷ heap) =
    let rest = take_out p heap in if q == p then some heap else (rest >>= λ heap'. some (q ∷ heap'))

-- `delete` of null does nothing; `none` is the undefined one of what `new` did not return, or what
-- was deleted already.
unfoldable pub delete : ℕ → Heap → Option Heap
unfolding take_out
delete p heap = if p == 0 then some heap else take_out p heap

unfoldable pub delete_arrays : List ℕ → Heap → Option Heap
delete_arrays [] heap = some heap
delete_arrays (buf ∷ bufs) heap = delete buf heap >>= λ heap'. delete_arrays bufs heap'

unfoldable pub funtrace_free_snapshot : ℕ → List ℕ → Heap → Option Heap
funtrace_free_snapshot snapshot bufs heap =
    if snapshot == 0
    then some heap
    else (delete_arrays bufs heap >>= λ heap'. delete snapshot heap')

-- New addresses are not null, differ, and are not in use.
abbrev pub AreNew : List ℕ → Heap → Type 0
AreNew [] heap = Unit
AreNew (p ∷ ps) heap = (1 ≤ p) × (count p ps ≡ 0) × (count p heap ≡ 0) × AreNew ps heap

-- An address that is not among the new ones is taken out as before.
take_out-new_arrays :
    (p : ℕ) (ps : List ℕ) (heap : Heap)
    → count p ps ≡ 0
    → take_out p (new_arrays ps heap) ≡ (take_out p heap >>= λ heap'. some (new_arrays ps heap'))
unfolding new_arrays take_out
take_out-new_arrays p [] heap h = by_result (take_out p heap)
  where
    by_result : (o : Option Heap) → o ≡ (o >>= λ heap'. some heap')
    by_result none = refl
    by_result (some heap') = refl
take_out-new_arrays p (q ∷ ps) heap h =
    take_out-new_arrays p ps (q ∷ heap) (ground arith) ∙ rw other (by_result (take_out p heap))
  where
    other : q == p ≡ false
    other = ground arith

    by_result :
        (o : Option Heap)
        → (o >>= (λ heap'. some (q ∷ heap')) >>= λ heap'. some (new_arrays ps heap'))
          ≡ (o >>= λ heap'. some (new_arrays ps (q ∷ heap')))
    by_result none = refl
    by_result (some heap') = refl

delete-first :
    (p : ℕ) (ps : List ℕ) (heap : Heap)
    → 1 ≤ p
    → count p ps ≡ 0
    → delete p (new_arrays ps (p ∷ heap)) ≡ some (new_arrays ps heap)
unfolding delete take_out
delete-first p ps heap pos h = rw nonnull (take_out-new_arrays p ps (p ∷ heap) h ∙ rw itself refl)
  where
    nonnull : p == 0 ≡ false
    nonnull = ground arith

    itself : p == p ≡ true
    itself = ground arith

delete_arrays-new_arrays :
    (ps : List ℕ) (heap : Heap) → AreNew ps heap → delete_arrays ps (new_arrays ps heap) ≡ some heap
unfolding delete_arrays new_arrays
delete_arrays-new_arrays [] heap h = refl
delete_arrays-new_arrays (p ∷ ps) heap (pos, once, new, rest) =
    ap (λ r. r >>= λ heap'. delete_arrays ps heap') (delete-first p ps heap pos once)
    ∙ delete_arrays-new_arrays ps heap rest

-- Where `new` returns addresses for the object and its arrays that are not null, and for the arrays
-- ones that differ from each other and from all in use, funtrace_free_snapshot deletes each array
-- and the object once, and leaves what was there before the snapshot was taken.
pub funtrace_free_snapshot-new_snapshot :
    (snapshot : ℕ) (copies : List ℕ) (heap : Heap)
    → 1 ≤ snapshot
    → AreNew copies (snapshot ∷ heap)
    → funtrace_free_snapshot snapshot copies (new_snapshot snapshot copies heap) ≡ some heap
unfolding funtrace_free_snapshot new_snapshot new_arrays
funtrace_free_snapshot-new_snapshot snapshot copies heap pos h = rw nonnull (
    ap (λ r. r >>= λ heap'. delete snapshot heap')
      (delete_arrays-new_arrays copies (snapshot ∷ heap) h)
    ∙ delete-first snapshot [] heap pos refl)
  where
    nonnull : snapshot == 0 ≡ false
    nonnull = ground arith
