-- ===== src/Registry/Blocks.antt =====
-- The blocks that the registered traces hold, and how the operations move them.
use funtrace.Prelude.{
  ℕ, zero, suc, ◌+◌, ◌-◌, ◌<◌, ◌≡◌, refl, ap, ap₂, sym, ◌∙◌, inl, inr, List, [], ◌∷◌, map, arith,
  ◌==◌, length, get_or, set, take, Bool-cases,
}
use funtrace.TraceBuffer.{TraceData}
use funtrace.Registry.Pointers.{count, one_if, count-set, swap_remove, count-swap_remove}
use funtrace.Registry.System.{blocks}
use funtrace.Registry.{update, modify_all}

-- A change of an object that is not registered.
pub blocks-update_other :
    (p : ℕ) (t : TraceData) (traces : ℕ → TraceData) (ps : List ℕ)
    → count p ps ≡ 0
    → blocks (update p t traces) ps ≡ blocks traces ps
blocks-update_other p t traces [] h = refl
blocks-update_other p t traces (q ∷ ps) h =
    ap₂ ◌∷◌ (ground arith) (blocks-update_other p t traces ps (ground arith))

-- A change that keeps the block.
pub blocks-update_same :
    (p : ℕ) (t : TraceData) (traces : ℕ → TraceData) (ps : List ℕ)
    → t.buf ≡ (traces p).buf
    → blocks (update p t traces) ps ≡ blocks traces ps
blocks-update_same p t traces [] h = refl
blocks-update_same p t traces (q ∷ ps) h =
    ap₂ ◌∷◌
      (elim (Bool-cases (q == p)) [
        | inl e ↦ rw e (h ∙ ap (λ x. (traces x).buf) (ground arith))
        | inr e ↦ rw e refl
      ])
      (blocks-update_same p t traces ps h)

pub blocks-modify_all :
    (f : TraceData → TraceData) (qs : List ℕ) (traces : ℕ → TraceData) (ps : List ℕ)
    → ((t : TraceData) → (f t).buf ≡ t.buf)
    → blocks (modify_all f qs traces) ps ≡ blocks traces ps
unfolding modify_all
blocks-modify_all f [] traces ps h = refl
blocks-modify_all f (q ∷ qs) traces ps h =
    blocks-modify_all f qs (update q (f (traces q)) traces) ps h
    ∙ blocks-update_same q (f (traces q)) traces ps (h (traces q))

module _ (f : ℕ → ℕ) where
  map-set : (ps : List ℕ) (i v : ℕ) → map f (set ps i v) ≡ set (map f ps) i (f v)
  map-set [] i v = refl
  map-set (p ∷ ps) zero v = refl
  map-set (p ∷ ps) (suc i) v = ap (λ l. f p ∷ l) (map-set ps i v)

  map-take : (n : ℕ) (ps : List ℕ) → map f (take n ps) ≡ take n (map f ps)
  map-take zero ps = refl
  map-take (suc n) [] = refl
  map-take (suc n) (p ∷ ps) = ap (λ l. f p ∷ l) (map-take n ps)

  length-map : (ps : List ℕ) → length (map f ps) ≡ length ps
  length-map [] = refl
  length-map (p ∷ ps) = ap suc (length-map ps)

  get_or-map : (ps : List ℕ) (i : ℕ) → i < length ps → get_or (map f ps) i 0 ≡ f (get_or ps i 0)
  get_or-map [] i h = absurd (omega arith)
  get_or-map (p ∷ ps) zero h = refl
  get_or-map (p ∷ ps) (suc i) h = get_or-map ps i (omega arith)

  map-swap_remove :
      (i : ℕ) (ps : List ℕ) → i < length ps → map f (swap_remove i ps) ≡ swap_remove i (map f ps)
  unfolding swap_remove
  map-swap_remove i ps h =
      map-take (length ps - 1) (set ps i (get_or ps (length ps - 1) 0))
      ∙ ap (take (length ps - 1)) (map-set ps i (get_or ps (length ps - 1) 0))
      ∙ ap₂ (λ n v. take (n - 1) (set (map f ps) i v)) (sym (length-map ps))
          (sym (get_or-map ps (length ps - 1) (omega arith))
            ∙ ap (λ n. get_or (map f ps) (n - 1) 0) (sym (length-map ps)))

module _ (b : ℕ) (traces : ℕ → TraceData) (ps : List ℕ) (i : ℕ) (inside : i < length ps) where
  abbrev f : ℕ → ℕ
  f p = (traces p).buf

  -- A removal gives up the block of what stood at the place.
  pub count-blocks-swap_remove :
      count b (blocks traces (swap_remove i ps)) + one_if ((traces (get_or ps i 0)).buf == b)
      ≡ count b (blocks traces ps)
  count-blocks-swap_remove =
      ap₂ (λ l v. count b l + one_if (v == b)) (map-swap_remove f i ps inside)
        (sym (get_or-map f ps i inside))
      ∙ count-swap_remove b (map f ps) i (omega (arith, length-map f ps))

  -- Another object in the place, with the same block.
  pub count-blocks-set :
      (v : ℕ)
      → (traces v).buf ≡ (traces (get_or ps i 0)).buf
      → count b (blocks traces (set ps i v)) ≡ count b (blocks traces ps)
  count-blocks-set v same =
      ap (count b) (map-set f ps i v)
      ∙ omega (
        arith,
        count-set b (map f ps) i (f v) (omega (arith, length-map f ps)),
        ap (λ x. one_if (x == b)) (same ∙ sym (get_or-map f ps i inside)),
      )
