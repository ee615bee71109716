-- ===== src/Client/Call/Guard.antt =====
-- The empty-segment guard of `do`, against the paths that JoinPath builds.
use ynab_go.Base.{
  ℕ, ◌≡◌, ◌≢◌, refl, ◌∙◌, Bool, true, false, ◌||◌, List, [], ◌∷◌, ◌++◌, map, arith, All, Bytes,
  codes, ◌==◌, is_nil,
}
use ynab_go.Std.Strings.{has_prefix, has_suffix, contains, join, Lacks}
use ynab_go.Transport.Path.{
  escape_segment, join_path, IsText, escaped-Lacks, escape-cons, escaped_nil,
}
use ynab_go.Client.Call.{is_collapsed}

-- Some text of the list is empty.
abbrev pub any_nil : List Bytes → Bool
any_nil [] = false
any_nil (s ∷ r) = is_nil s || any_nil r

-- The two tests on a path that is not empty.
abbrev gap : Bytes → Bool
gap s = has_suffix b'/' s || contains (codes "//") s

gap_plain : (s : Bytes) → Lacks b'/' s → gap s ≡ false
unfolding has_suffix contains has_prefix
gap_plain [] h = refl
gap_plain (c ∷ []) h = ground arith
gap_plain (c ∷ d ∷ s) h = ground (arith, gap_plain (d ∷ s) h.1)

-- A path that starts with a slash, or is empty behind one.
abbrev starts_gap : Bytes → Bool
starts_gap [] = true
starts_gap (c ∷ s) = c == b'/'

gap_slash : (u : Bytes) → gap (b'/' ∷ u) ≡ (starts_gap u || gap u)
unfolding has_suffix contains has_prefix
gap_slash [] = refl
gap_slash (c ∷ u) = ground arith

skip : (c : ℕ) (t : Bytes) → c ≢ b'/' → gap (c ∷ t) ≡ gap t
unfolding has_suffix contains has_prefix
skip c [] k = ground arith
skip c (d ∷ t) k = ground arith

gap-append : (s u : Bytes) → Lacks b'/' s → gap (s ++ b'/' ∷ u) ≡ (starts_gap u || gap u)
gap-append [] u h = gap_slash u
gap-append (c ∷ s) u h = skip c (s ++ b'/' ∷ u) h.0 ∙ gap-append s u h.1

-- A joined path without slashes in its segments has a gap exactly at an empty segment.
nil-starts :
    (s : Bytes) (r : List Bytes)
    → All (Lacks b'/') (s ∷ r)
    → (starts_gap (join (codes "/") (s ∷ r)) || gap (join (codes "/") (s ∷ r))) ≡ any_nil (s ∷ r)
unfolding join
nil-starts [] [] h = refl
nil-starts (c ∷ s) [] h = ground (arith, gap_plain (c ∷ s) h.0)
nil-starts [] (t ∷ r) h = refl
nil-starts (c ∷ s) (t ∷ r) h =
    ground (arith, gap-append (c ∷ s) (join (codes "/") (t ∷ r)) h.0, nil-starts t r h.1)

any_nil-escaped : (r : List Bytes) → All IsText r → any_nil (map escape_segment r) ≡ any_nil r
any_nil-escaped [] h = refl
any_nil-escaped (s ∷ r) h = rw (escaped_nil s h.0, any_nil-escaped r h.1) refl

collapsed_at :
    (t : Bytes) (r : List Bytes)
    → All (Lacks b'/') (t ∷ r)
    → is_nil t ≡ false
    → is_collapsed (join (codes "/") (t ∷ r)) ≡ any_nil r
unfolding is_collapsed join
collapsed_at [] r h full = ground arith
collapsed_at (c ∷ t) [] h full = ground (arith, nil-starts (c ∷ t) [] h)
collapsed_at (c ∷ t) (u ∷ r) h full = ground (arith, nil-starts (c ∷ t) (u ∷ r) h)

-- On a path that JoinPath builds from segments of bytes of which the first is not empty, the guard
-- of `do` refuses exactly the paths with an empty segment.
pub is_collapsed-join_path :
    (c : ℕ) (s : Bytes) (r : List Bytes)
    → All IsText ((c ∷ s) ∷ r)
    → is_collapsed (join_path ((c ∷ s) ∷ r)) ≡ any_nil r
unfolding join_path
is_collapsed-join_path c s r h =
    collapsed_at (escape_segment (c ∷ s)) (map escape_segment r) (escaped-Lacks ((c ∷ s) ∷ r) h)
      (escape-cons c s h.0)
    ∙ any_nil-escaped r h.1
