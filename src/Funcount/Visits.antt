-- ===== src/Funcount/Visits.antt =====
-- The loops of `~CountsPagesL2`: what is done for a count is done once, and for each.
use funtrace.Prelude.{
  ℕ, zero, suc, ◌+◌, ◌^◌, ◌<◌, ◌≡◌, ◌≢◌, subst, refl, ap, sym, ◌∙◌, inl, inr, true, ◌&&◌, Option,
  none, some, arith, ◌==◌, if◌then◌else◌, ◌>>=◌, Bool-cases, ℕ_discrete,
}
use funtrace.Funcount.Address.{page_size, address_of}
use funtrace.Funcount.{CountsPage, CountsPagesL1, CountsPagesL2, value, Counter, or_new, new_page}
use funtrace.Funcount.Report.{
  for_below, counts_in_page, on_count, on_page, on_pages, for_each_count,
}

-- A measure of the state, and the sums of it that are told apart.
module _ {S : Type 0} (P : S → Type 0) (measure : S → ℕ) (seen : ℕ → ℕ)
    (seen-add : (a b k : ℕ) → seen a ≡ seen b → seen (a + k) ≡ seen (b + k)) where
  -- The result exists and keeps `P`, and the measure has grown by `k`.
  abbrev pub Adds : ℕ → S → Option S → Type 0
  Adds k s r = (s' : S) × (r ≡ some s') × P s' × (seen (measure s') ≡ seen (measure s + k))

  pub Adds-none : (s : S) → P s → Adds 0 s (some s)
  Adds-none s p = (s, refl, p, ap seen (omega arith))

  pub Adds-then :
      (j k : ℕ) (s : S) (r : Option S) (next : S → Option S)
      → Adds j s r
      → ((s' : S) → P s' → Adds k s' (next s'))
      → Adds (j + k) s (r >>= λ s'. next s')
  Adds-then j k s r next (s', e, p, m) h =
      let (t, f, q, m') = h s' p in
      (
        t,
        ap (λ r. r >>= λ s'. next s') e ∙ f,
        q,
        m' ∙ seen-add (measure s') (measure s + j) k m ∙ ap seen (omega arith),
      )

  Adds-eq : (j k : ℕ) (s : S) (r : Option S) → j ≡ k → Adds j s r → Adds k s r
  Adds-eq j k s r e (s', f, p, m) = (s', f, p, m ∙ ap (λ i. seen (measure s + i)) e)

  module _ (body : ℕ → S → Option S) where
    for_below-none :
        (n : ℕ)
        → ((i : ℕ) → i < n → (s : S) → P s → Adds 0 s (body i s))
        → (s : S) → P s
        → Adds 0 s (for_below body n s)
    unfolding for_below
    for_below-none zero h s p = Adds-none s p
    for_below-none (suc n) h s p = Adds-eq (0 + 0) 0 s (for_below body (suc n) s) (omega arith) (
        Adds-then 0 0 s (for_below body n s) (body n)
          (for_below-none n (λ i lt. h i (omega arith)) s p) (h n (omega arith)))

    -- One round of the loop adds `g`, the others nothing.
    for_below-once :
        (k g n : ℕ)
        → k < n
        → ((s : S) → P s → Adds g s (body k s))
        → ((i : ℕ) → i < n → i ≢ k → (s : S) → P s → Adds 0 s (body i s))
        → (s : S) → P s
        → Adds g s (for_below body n s)
    unfolding for_below
    for_below-once k g zero lt h others s p = absurd (omega arith)
    for_below-once k g (suc n) lt h others s p = elim (ℕ_discrete n k) [
      | yes e ↦ Adds-eq (0 + g) g s (for_below body (suc n) s) (omega arith) (
          Adds-then 0 g s (for_below body n s) (body n)
            (for_below-none n (λ i lt'. others i (omega arith) (λ f. omega (arith, e, f))) s p)
            (λ s' p'. subst (λ i. Adds g s' (body i s')) (sym e) (h s' p')))
      | no ne ↦ Adds-eq (g + 0) g s (for_below body (suc n) s) (omega arith) (
          Adds-then g 0 s (for_below body n s) (body n)
            (for_below-once k g n (below ne) h (λ i lt'. others i (omega arith)) s p)
            (others n (omega arith) ne))
    ]
      where
        below : n ≢ k → k < n
        below ne = ground arith

  -- What is done for each count adds the one at `h`, `m`, `l`, and no other.
  module _ (use_count : ℕ → ℕ → S → Option S) {h m l : ℕ} (in_high : h < 2 ^ 16)
      (in_mid : m < 2 ^ 16) (in_page : l < 2 ^ 13)
      (adds : (hi mid lo n : ℕ)
        → hi < 2 ^ 16
        → mid < 2 ^ 16
        → lo < 2 ^ 13
        → (s : S) → P s
        → Adds
            (if hi == h && (mid == m && lo == l) then n else 0)
            s
            (use_count (address_of hi mid lo) n s)) where
    on_count-Adds :
        (page : CountsPage) (hi mid lo : ℕ)
        → hi < 2 ^ 16
        → mid < 2 ^ 16
        → lo < 2 ^ 13
        → (s : S) → P s
        → Adds
            (if hi == h && (mid == m && lo == l) then page lo else 0)
            s
            (on_count use_count page hi mid lo s)
    unfolding on_count
    on_count-Adds page hi mid lo a b c s p = elim (Bool-cases (page lo == 0)) [
      | inl e ↦ rw e (Adds-eq 0 _ s (some s) (zero_count e) (Adds-none s p))
      | inr e ↦ rw e (adds hi mid lo (page lo) a b c s p)
    ]
      where
        zero_count :
            page lo == 0 ≡ true → 0 ≡ (if hi == h && (mid == m && lo == l) then page lo else 0)
        zero_count e = ground arith

    on_page-Adds :
        (o : Option CountsPage) (hi mid : ℕ)
        → hi < 2 ^ 16
        → mid < 2 ^ 16
        → (s : S) → P s
        → Adds
            (if hi == h && mid == m then or_new o new_page l else 0)
            s
            (on_page use_count o hi mid s)
    unfolding on_page
    on_page-Adds none hi mid a b s p = Adds-eq 0 _ s (some s) (ground arith) (Adds-none s p)
    on_page-Adds (some page) hi mid a b s p =
        for_below-once (on_count use_count page hi mid) l
          (if hi == h && mid == m then page l else 0) counts_in_page in_page
          (λ s p.
            Adds-eq _ _ s (on_count use_count page hi mid l s) (ground arith)
              (on_count-Adds page hi mid l a b in_page s p))
          (λ lo lt ne s p.
            Adds-eq _ 0 s (on_count use_count page hi mid lo s) (ground arith)
              (on_count-Adds page hi mid lo a b lt s p))
          s p

    on_pages-Adds :
        (o : Option CountsPagesL1) (hi : ℕ)
        → hi < 2 ^ 16
        → (s : S) → P s
        → Adds
            (if hi == h then or_new (o >>= λ pages. pages m) new_page l else 0)
            s
            (on_pages use_count o hi s)
    unfolding on_pages
    on_pages-Adds none hi a s p = Adds-eq 0 _ s (some s) (ground arith) (Adds-none s p)
    on_pages-Adds (some pages) hi a s p =
        for_below-once (λ mid. on_page use_count (pages mid) hi mid) m
          (if hi == h then or_new (pages m) new_page l else 0) page_size in_mid
          (λ s p.
            Adds-eq _ _ s (on_page use_count (pages m) hi m s) (ground arith)
              (on_page-Adds (pages m) hi m a in_mid s p))
          (λ mid lt ne s p.
            Adds-eq _ 0 s (on_page use_count (pages mid) hi mid s) (ground arith)
              (on_page-Adds (pages mid) hi mid a lt s p))
          s p

    pub for_each_count-Adds :
        (t : CountsPagesL2) (s : S)
        → P s
        → Adds (value t (Counter.count h m l)) s (for_each_count use_count t s)
    unfolding for_each_count
    for_each_count-Adds t s p =
        for_below-once (λ hi. on_pages use_count (t.pages_l1 hi) hi) h
          (value t (Counter.count h m l)) page_size in_high
          (λ s p.
            Adds-eq _ _ s (on_pages use_count (t.pages_l1 h) h s) (ground arith)
              (on_pages-Adds (t.pages_l1 h) h in_high s p))
          (λ hi lt ne s p.
            Adds-eq _ 0 s (on_pages use_count (t.pages_l1 hi) hi s) (ground arith)
              (on_pages-Adds (t.pages_l1 hi) hi lt s p))
          s p
