-- ===== src/Std/Utf8.antt =====
-- unicode/utf8: RuneCountInString. A byte that starts no valid encoding counts as one rune.
use ynab_go.Base.{
  ℕ, zero, suc, ◌≤◌, ◌<◌, ◌≡◌, refl, Bool, ◌&&◌, [], ◌∷◌, arith, All, Bytes, leb, ◌==◌,
  if◌then◌else◌, length,
}

between : ℕ → ℕ → ℕ → Bool
between lo hi c = leb lo c && leb c hi

-- The least and the greatest second byte behind a first byte of three or four.
second_lo : ℕ → ℕ
second_lo c = if c == 0xe0 then 0xa0 else if c == 0xf0 then 0x90 else 0x80

second_hi : ℕ → ℕ
second_hi c = if c == 0xed then 0x9f else if c == 0xf4 then 0x8f else 0xbf

-- The bytes behind the first that the first rune takes.
extra : Bytes → ℕ
extra (c ∷ d ∷ e ∷ f ∷ s) =
    if between 0xc2 0xdf c && between 0x80 0xbf d
    then 1
    else if between 0xe0 0xef c && (between (second_lo c) (second_hi c) d && between 0x80 0xbf e)
    then 2
    else if between 0xf0 0xf4 c
        && (between (second_lo c) (second_hi c) d && (between 0x80 0xbf e && between 0x80 0xbf f))
    then 3
    else 0
extra (c ∷ d ∷ e ∷ []) =
    if between 0xc2 0xdf c && between 0x80 0xbf d
    then 1
    else if between 0xe0 0xef c && (between (second_lo c) (second_hi c) d && between 0x80 0xbf e)
    then 2
    else 0
extra (c ∷ d ∷ []) = if between 0xc2 0xdf c && between 0x80 0xbf d then 1 else 0
extra (c ∷ []) = 0
extra [] = 0

-- The runes behind `skip` bytes that belong to the rune before.
count_from : ℕ → Bytes → ℕ
count_from skip [] = 0
count_from (suc skip) (c ∷ s) = count_from skip s
count_from zero (c ∷ s) = suc (count_from (extra (c ∷ s)) s)

unfoldable pub rune_count : Bytes → ℕ
unfolding count_from extra between second_lo second_hi
rune_count s = count_from 0 s

count_from-le : (skip : ℕ) (s : Bytes) → count_from skip s ≤ length s
unfolding count_from
count_from-le zero [] = omega arith
count_from-le (suc skip) [] = omega arith
count_from-le (suc skip) (c ∷ s) = omega (arith, count_from-le skip s)
count_from-le zero (c ∷ s) = omega (arith, count_from-le (extra (c ∷ s)) s)

-- No text has more runes than bytes.
pub rune_count-le-length : (s : Bytes) → rune_count s ≤ length s
unfolding rune_count
rune_count-le-length s = count_from-le 0 s

extra_ascii : (c : ℕ) (s : Bytes) → c < 128 → extra (c ∷ s) ≡ 0
unfolding extra between
extra_ascii c [] h = refl
extra_ascii c (d ∷ []) h = ground arith
extra_ascii c (d ∷ e ∷ []) h = ground arith
extra_ascii c (d ∷ e ∷ f ∷ s) h = ground arith

count_from_ascii : (s : Bytes) → All (λ c. c < 128) s → count_from 0 s ≡ length s
unfolding count_from
count_from_ascii [] h = refl
count_from_ascii (c ∷ s) h = rw (extra_ascii c s h.0, count_from_ascii s h.1)

-- An ASCII text has as many runes as bytes.
pub rune_count_ascii : (s : Bytes) → All (λ c. c < 128) s → rune_count s ≡ length s
unfolding rune_count
rune_count_ascii s h = count_from_ascii s h
