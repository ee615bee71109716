-- ===== src/Std/Strings.antt =====
-- strings: Cut, Join, HasPrefix, HasSuffix, Contains, over byte lists.
use ynab_go.Base.{
  ℕ, ◌≡◌, ◌≢◌, refl, Bool, true, false, ◌&&◌, ◌||◌, List, [], ◌∷◌, ◌++◌, arith, Bytes, ◌==◌,
  if◌then◌else◌, All,
}

-- strings.Cut with a one-byte separator: before, after, found.
unfoldable pub cut : ℕ → Bytes → Bytes × Bytes × Bool
cut sep [] = ([], [], false)
cut sep (c ∷ s) =
    let (before, after, found) = cut sep s in
    if c == sep then ([], s, true) else (c ∷ before, after, found)

abbrev pub Lacks : ℕ → Bytes → Type 0
Lacks b = All (λ c. c ≢ b)

pub cut-append : (sep : ℕ) (s t : Bytes) → Lacks sep s → cut sep (s ++ sep ∷ t) ≡ (s, t, true)
unfolding cut
cut-append sep [] t h = ground arith
cut-append sep (c ∷ s) t h = ground (arith, cut-append sep s t h.1)

pub cut_none : (sep : ℕ) (s : Bytes) → Lacks sep s → cut sep s ≡ (s, [], false)
unfolding cut
cut_none sep [] h = refl
cut_none sep (c ∷ s) h = ground (arith, cut_none sep s h.1)

-- strings.HasPrefix.
unfoldable pub has_prefix : Bytes → Bytes → Bool
has_prefix [] s = true
has_prefix (p ∷ ps) [] = false
has_prefix (p ∷ ps) (c ∷ s) = p == c && has_prefix ps s

-- strings.HasSuffix with a one-byte suffix.
unfoldable pub has_suffix : ℕ → Bytes → Bool
has_suffix b [] = false
has_suffix b (c ∷ []) = c == b
has_suffix b (c ∷ d ∷ s) = has_suffix b (d ∷ s)

-- strings.Contains.
unfoldable pub contains : Bytes → Bytes → Bool
unfolding has_prefix
contains p [] = has_prefix p []
contains p (c ∷ s) = has_prefix p (c ∷ s) || contains p s

-- strings.Join.
unfoldable pub join : Bytes → List Bytes → Bytes
join sep [] = []
join sep (s ∷ []) = s
join sep (s ∷ t ∷ r) = s ++ (sep ++ join sep (t ∷ r))
