-- ===== src/TraceBuffer/Late.antt =====
-- Calls of `trace` that still write to a buffer whose position was read before them.
use funtrace.Prelude.{
  ℕ, zero, suc, ◌+◌, ◌/◌, ◌≤◌, ◌<◌, ◌≡◌, refl, ap, ap₂, sym, ◌∙◌, inl, inr, List, [], ◌∷◌, ◌++◌,
  map, arith, length, drop, take, get_or, ◌==◌, append_assoc, length-append, length-drop,
  length-take, drop-append, drop-append_le, take-append, Bool-cases, true,
}
use funtrace.TraceBuffer.Layout.{TraceEntry, Memory, entry_size, entries_at, length-entries_at}
use funtrace.TraceBuffer.Mask.{slots, index, wrap, IsAllocated, wrap-lt}
use funtrace.TraceBuffer.Window.{rotate, rotate_end}
use funtrace.TraceBuffer.Refine.{
  IsEnabled, chronological, trace-IsAllocated, trace-IsEnabled, trace-written, chronological-trace,
  trace-SameOutside, SameOutside,
}
use funtrace.TraceBuffer.Run.{Event, recorded, trace_all}
use funtrace.TraceBuffer.{TraceData, trace}

module _ {ℓ} {A : Type ℓ} where
  -- One place further, the first element comes last.
  rotate-suc :
      (xs : List A) (i : ℕ)
      → i < length xs
      → (x : A) × (r : List A) × (rotate i xs ≡ x ∷ r) × (rotate (suc i) xs ≡ r ++ x ∷ [])
  rotate-suc xs i h =
      let (x, e, f) = place xs i h in
      (
        x,
        drop (suc i) xs ++ take i xs,
        ap (λ l. l ++ take i xs) e,
        ap (λ l. drop (suc i) xs ++ l) f
            ∙ sym (append_assoc (drop (suc i) xs) (take i xs) (x ∷ [])),
      )
    where
      place :
          (xs : List A) (i : ℕ)
          → i < length xs
          → (x : A) × (drop i xs ≡ x ∷ drop (suc i) xs) × (take (suc i) xs ≡ take i xs ++ x ∷ [])
      place [] i h = absurd (omega arith)
      place (x ∷ xs) zero h = (x, refl, refl)
      place (y ∷ xs) (suc i) h =
          let (x, e, f) = place xs i (omega arith) in (x, e, ap (λ l. y ∷ l) f)

  pub snoc_injective :
      (xs ys : List A) (x y : A)
      → length xs ≡ length ys
      → xs ++ x ∷ [] ≡ ys ++ y ∷ []
      → (xs ≡ ys) × (x ≡ y)
  snoc_injective xs ys x y h e = (
    sym (take-append (length xs) xs (x ∷ []) refl)
        ∙ ap (take (length xs)) e
        ∙ take-append (length xs) ys (y ∷ []) h,
    ap (λ l. get_or l 0 x)
        (sym (drop-append (length xs) xs (x ∷ []) refl)
          ∙ ap (drop (length xs)) e
          ∙ drop-append (length xs) ys (y ∷ []) h),
  )

  -- What was turned by one place, turned back.
  unrotate :
      (xs rest old : List A) (i : ℕ) (x : A)
      → i < length xs
      → length rest + length old + 1 ≡ length xs
      → rotate (suc i) xs ≡ rest ++ (old ++ x ∷ [])
      → rotate i xs ≡ x ∷ (rest ++ old)
  unrotate xs rest old i x h n e =
      let (y, r, f, g) = rotate-suc xs i h in
      let (same, last) =
        snoc_injective r (rest ++ old) y x (sizes y r f)
          (sym g ∙ e ∙ sym (append_assoc rest old (x ∷ []))) in
      f ∙ ap₂ (λ a l. a ∷ l) last same
    where
      sizes : (y : A) (r : List A) → rotate i xs ≡ y ∷ r → length r ≡ length (rest ++ old)
      sizes y r f = omega (
        arith,
        ap length f,
        length-append (drop i xs) (take i xs),
        length-drop i xs,
        length-take i xs,
        length-append rest old,
      )

  drop-drop_one : (n : ℕ) (xs : List A) → drop n (drop 1 xs) ≡ drop (suc n) xs
  drop-drop_one zero [] = refl
  drop-drop_one (suc n) [] = refl
  drop-drop_one n (x ∷ xs) = refl

pub length-map-recorded : (es : List Event) → length (map recorded es) ≡ length es
length-map-recorded [] = refl
length-map-recorded (e ∷ es) = ap suc (length-map-recorded es)

-- The entries of a buffer in the memory that later calls leave, from the position on that it had.
abbrev pub seen_from : TraceData → Memory → List TraceEntry
seen_from t mem = rotate (index t) (entries_at mem t.buf (slots t))

length-rotate : (xs : List TraceEntry) (i : ℕ) → length (rotate i xs) ≡ length xs
length-rotate xs i =
    omega (arith, length-append (drop i xs) (take i xs), length-drop i xs, length-take i xs)

module _ {t : TraceData} (v : IsAllocated t) (on : IsEnabled t) where
  -- The place that the next call writes is the position, up to going round.
  seen_from-wrap :
      (mem : Memory)
      → seen_from t mem ≡ rotate (wrap (slots t) (index t)) (entries_at mem t.buf (slots t))
  seen_from-wrap mem = elim (Bool-cases (index t == slots t)) [
    | inl e ↦ rw e (
        rotate_end (entries_at mem t.buf (slots t)) (index t)
          (omega (arith, length-entries_at mem t.buf (slots t), full e)))
    | inr e ↦ rw e refl
  ]
    where
      full : index t == slots t ≡ true → index t ≡ slots t
      full e = ground arith

  seen_from-trace :
      (mem mem' : Memory) (ptr flags cycle : ℕ)
      → seen_from (trace ptr flags cycle (mem, t)).1 mem'
        ≡ rotate (suc (wrap (slots t) (index t))) (entries_at mem' t.buf (slots t))
  seen_from-trace mem mem' ptr flags cycle = rw (trace-written v on mem ptr flags cycle) (
      ap (λ i. rotate i (entries_at mem' t.buf (slots t))) {y = suc (wrap (slots t) (index t))}
        (omega arith))

-- After at most a lap of late calls, the entries from the old position on are those of the late
-- calls, followed by what they left of the others, from the oldest to the newest.
pub seen_from-trace_all :
    (ls : List Event) {t : TraceData} (mem : Memory)
    → IsAllocated t
    → IsEnabled t
    → length ls ≤ slots t
    → seen_from t (trace_all ls (mem, t)).0
      ≡ map recorded ls ++ drop (length ls) (chronological (mem, t))
unfolding trace_all
seen_from-trace_all [] mem v on h = refl
seen_from-trace_all (l ∷ ls) {t} mem v on h =
    seen_from-wrap v on mem'
    ∙ unrotate (entries_at mem' t.buf (slots t)) (map recorded ls) (drop (suc (length ls)) chron)
        (wrap (slots t) (index t)) (recorded l)
        (omega (arith, wrap-lt v, length-entries_at mem' t.buf (slots t)))
        (omega (
          arith,
          length-map-recorded ls,
          length-drop (suc (length ls)) chron,
          length-chron,
          length-entries_at mem' t.buf (slots t),
        ))
        (sym (seen_from-trace v on mem mem' l.ptr l.flags l.time)
          ∙ seen_from-trace_all ls s₁.0 (trace-IsAllocated v on mem l.ptr l.flags l.time)
              (trace-IsEnabled v on mem l.ptr l.flags l.time)
              (omega (arith, ap (λ n. n / entry_size) same.1))
          ∙ ap (λ c. map recorded ls ++ c) shifted)
  where
    s₁ : Memory × TraceData
    s₁ = trace l.ptr l.flags l.time (mem, t)

    mem' : Memory
    mem' = (trace_all ls s₁).0

    chron : List TraceEntry
    chron = chronological (mem, t)

    same : SameOutside (mem, t) s₁
    same = trace-SameOutside v on mem l.ptr l.flags l.time

    length-chron : length chron ≡ slots t
    length-chron =
        length-rotate (entries_at mem t.buf (slots t)) (index t)
        ∙ length-entries_at mem t.buf (slots t)

    shifted : drop (length ls) (chronological s₁) ≡ drop (suc (length ls)) chron ++ recorded l ∷ []
    shifted =
        ap (drop (length ls)) (chronological-trace v on mem l.ptr l.flags l.time)
        ∙ drop-append_le (length ls) (drop 1 chron) (recorded l ∷ [])
            (omega (arith, length-chron, length-drop 1 chron))
        ∙ ap (λ d. d ++ recorded l ∷ []) (drop-drop_one (length ls) chron)

-- Without going round, each call moves the position by one.
pub index-trace_all :
    (es : List Event) {t : TraceData} (mem : Memory)
    → IsAllocated t
    → IsEnabled t
    → index t + length es ≤ slots t
    → index (trace_all es (mem, t)).1 ≡ index t + length es
unfolding trace_all
index-trace_all [] mem v on h = omega arith
index-trace_all (e ∷ es) {t} mem v on h =
    index-trace_all es s₁.0 (trace-IsAllocated v on mem e.ptr e.flags e.time)
      (trace-IsEnabled v on mem e.ptr e.flags e.time)
      (omega (arith, one, ap (λ n. n / entry_size) same.1))
    ∙ omega (arith, one)
  where
    s₁ : Memory × TraceData
    s₁ = trace e.ptr e.flags e.time (mem, t)

    same : SameOutside (mem, t) s₁
    same = trace-SameOutside v on mem e.ptr e.flags e.time

    one : index s₁.1 ≡ suc (index t)
    one = rw (trace-written v on mem e.ptr e.flags e.time) (ground arith)
