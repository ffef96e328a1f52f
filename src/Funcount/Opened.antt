-- ===== src/Funcount/Opened.antt =====
-- The libraries that a program opens, in funcount.cpp: after the loader's own function, the segments
-- of all objects that are loaded then are mapped again.
use funtrace.Prelude.{
  ℕ, ◌^◌, ◌<◌, ◌≡◌, refl, inl, Bool, true, false, ◌||◌, Option, some, List, [], ◌∷◌, All, ◌>>=◌,
}
use funtrace.Funcount.Mapped.{own_count}
use funtrace.Funcount.Segments.{
  DlPhdrInfo, is_executable, IsPlaced, is_in_segment, allocate_page_tables, funcount_init, Maps,
  Maps-then, kept_none, allocate_page_tables-Maps,
}
use funtrace.Funcount.{CountsPagesL2, init, get_count}

-- `dlopen`, and in the same way `dlmopen`, where `loaded` are the objects after the loader's own.
unfoldable pub dlopen : List DlPhdrInfo → CountsPagesL2 → Option CountsPagesL2
dlopen loaded t = allocate_page_tables loaded t

-- Some libraries one after another.
unfoldable pub dlopen_all : List (List DlPhdrInfo) → CountsPagesL2 → Option CountsPagesL2
dlopen_all [] t = some t
dlopen_all (loaded ∷ later) t = dlopen loaded t >>= λ t'. dlopen_all later t'

abbrev pub is_in_some : ℕ → List (List DlPhdrInfo) → Bool
is_in_some a [] = false
is_in_some a (loaded ∷ later) = is_in_segment a loaded || is_in_some a later

-- The executable segments end a page in front of 2^48.
abbrev pub ArePlaced : List DlPhdrInfo → Type 0
ArePlaced infos =
    All
      (λ info.
        All (λ phdr. is_executable phdr ≡ true → IsPlaced info.dlpi_addr phdr) info.dlpi_phdr)
      infos

dlopen_all-Maps :
    (loads : List (List DlPhdrInfo)) (t : CountsPagesL2)
    → All ArePlaced loads
    → Maps (λ a. is_in_some a loads) t (dlopen_all loads t)
unfolding dlopen_all dlopen
dlopen_all-Maps [] t h = (t, refl, λ a small due. kept_none a t small due)
dlopen_all-Maps (loaded ∷ later) t h =
    Maps-then (λ a. is_in_segment a loaded) (λ a. is_in_some a later) t (dlopen loaded t)
      (dlopen_all later) (allocate_page_tables-Maps loaded t h.0)
      (λ t'. dlopen_all-Maps later t' h.1)

-- Where the executable segments of the objects loaded at the start, and of those loaded after each
-- library that is opened, end a page in front of 2^48: no assertion fails, and afterwards each
-- address that was in one of them at any of these times has a count of its own group of 8 bytes,
-- also where the object is loaded no longer.
dlopen_all-get_count :
    (loaded : List DlPhdrInfo) (loads : List (List DlPhdrInfo))
    → ArePlaced loaded
    → All ArePlaced loads
    → (t' : CountsPagesL2) × ((funcount_init loaded >>= λ t. dlopen_all loads t) ≡ some t')
      × ((a : ℕ)
          → a < 2 ^ 48
          → (is_in_segment a loaded || is_in_some a loads) ≡ true
          → get_count t' a ≡ some (own_count a))
unfolding funcount_init
dlopen_all-get_count loaded loads h k =
    let (t', e, own) =
      Maps-then (λ a. is_in_segment a loaded) (λ a. is_in_some a loads) init
        (allocate_page_tables loaded init) (dlopen_all loads)
        (allocate_page_tables-Maps loaded init h) (λ t. dlopen_all-Maps loads t k) in
    (t', e, λ a small inside. own a small (inl inside))
