-- ===== src/Snapshot/Order.antt =====
-- The order that the calls of one thread leave behind in a buffer.
use funtrace.Prelude.{
  ℕ, zero, suc, ◌≤◌, ◌<◌, ◌≡◌, refl, ap₂, ◌∙◌, inl, inr, List, [], ◌∷◌, ◌++◌, arith, leb, filter,
  All, All-append_parts, drop, filter-append,
}
use funtrace.TraceBuffer.Layout.{TraceEntry}
use funtrace.Snapshot.Select.{Precedes, InOrder, in_window}

-- The times do not go down.
abbrev pub IsOrdered : List TraceEntry → Type 0
IsOrdered [] = Unit
IsOrdered (e ∷ es) = All (λ f. e.cycle ≤ f.cycle) es × IsOrdered es

-- Recorded up to the pause, and after it. A time stamp is not 0.
abbrev pub IsEarly : ℕ → TraceEntry → Type 0
IsEarly pause_time e = (1 ≤ e.cycle) × (e.cycle ≤ pause_time)

abbrev pub IsLate : ℕ → TraceEntry → Type 0
IsLate pause_time e = pause_time < e.cycle

pub All-drop :
    (P : TraceEntry → Type 0) (n : ℕ) (es : List TraceEntry) → All P es → All P (drop n es)
All-drop P zero es h = h
All-drop P (suc n) [] h = h
All-drop P (suc n) (e ∷ es) h = All-drop P n es h.1

pub IsOrdered-drop : (n : ℕ) (es : List TraceEntry) → IsOrdered es → IsOrdered (drop n es)
IsOrdered-drop zero es h = h
IsOrdered-drop (suc n) [] h = h
IsOrdered-drop (suc n) (e ∷ es) h = IsOrdered-drop n es h.1

module _ (pause_time : ℕ) where
  early-Precedes :
      (e : TraceEntry) (es : List TraceEntry)
      → All (λ f. e.cycle ≤ f.cycle) es
      → All (IsEarly pause_time) es
      → All (Precedes pause_time e) es
  early-Precedes e [] h k = tt
  early-Precedes e (f ∷ es) h k = (inl (k.0.1, inr h.0), early-Precedes e es h.1 k.1)

  InOrder-early :
      (es : List TraceEntry) → IsOrdered es → All (IsEarly pause_time) es → InOrder pause_time es
  InOrder-early [] h k = tt
  InOrder-early (e ∷ es) h k = (early-Precedes e es h.0 k.1, InOrder-early es h.1 k.1)

  late-Precedes :
      (l : TraceEntry) (ls es : List TraceEntry)
      → IsLate pause_time l
      → All (λ f. l.cycle ≤ f.cycle) ls
      → All (IsEarly pause_time) es
      → All (Precedes pause_time l) (ls ++ es)
  late-Precedes l [] [] late h k = tt
  late-Precedes l [] (e ∷ es) late h k = (inl (k.0.1, inl late), late-Precedes l [] es late h k.1)
  late-Precedes l (f ∷ ls) es late h k = (inr (late, h.0), late-Precedes l ls es late h.1 k)

  -- Late entries in front of early ones.
  pub InOrder-late :
      (ls es : List TraceEntry)
      → IsOrdered ls
      → All (IsLate pause_time) ls
      → IsOrdered es
      → All (IsEarly pause_time) es
      → InOrder pause_time (ls ++ es)
  InOrder-late [] es h late k early = InOrder-early es k early
  InOrder-late (l ∷ ls) es h late k early =
      (late-Precedes l ls es late.0 h.0 early, InOrder-late ls es h.1 late.1 k early)

  pub InOrder-append_parts :
      (xs ys : List TraceEntry)
      → InOrder pause_time (xs ++ ys)
      → InOrder pause_time xs × InOrder pause_time ys
  InOrder-append_parts [] ys h = (tt, h)
  InOrder-append_parts (x ∷ xs) ys h =
      let parts = InOrder-append_parts xs ys h.1 in
      let heads = All-append_parts (Precedes pause_time x) xs ys h.0 in
      ((heads.0, parts.0), parts.1)

  filter-late :
      (time : ℕ) (ls : List TraceEntry)
      → All (IsLate pause_time) ls
      → filter (in_window time pause_time) ls ≡ []
  filter-late time [] h = refl
  filter-late time (l ∷ ls) h = ground (arith, h.0, filter-late time ls h.1)

  filter-early :
      (time : ℕ) (es : List TraceEntry)
      → All (IsEarly pause_time) es
      → filter (in_window time pause_time) es ≡ filter (λ e. leb time e.cycle) es
  filter-early time [] h = refl
  filter-early time (e ∷ es) h = ground (arith, h.0, filter-early time es h.1)

  -- A window that ends with the pause leaves late entries out.
  pub filter-late_early :
      (time : ℕ) (ls es : List TraceEntry)
      → All (IsLate pause_time) ls
      → All (IsEarly pause_time) es
      → filter (in_window time pause_time) (ls ++ es) ≡ filter (λ e. leb time e.cycle) es
  filter-late_early time ls es late early =
      filter-append (in_window time pause_time) ls es
      ∙ ap₂ ◌++◌ (filter-late time ls late) (filter-early time es early)
