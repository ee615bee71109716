-- ===== src/Milliunits/Rounding.antt =====
-- Format: rounding to the requested decimals, and the case in which Format and String agree.
use ynab_go.Base.{
  ℕ, zero, suc, ◌+◌, ◌-◌, ◌*◌, ◌/◌, ◌%◌, ◌^◌, ◌≤◌, ◌<◌, ◌≡◌, refl, Bool, true, false, [], ◌∷◌, ◌++◌,
  append-nil, arith, Bytes, codes, if◌then◌else◌,
}
use ynab_go.Base.Int.{ℤ, pos}
use ynab_go.Base.Word.{IsInt64}
use ynab_go.Std.Strconv.{pad, format_uint}
use ynab_go.Milliunits.{
  CurrencyFormat, pow10, rescale, format_number, format, to_string, magnitude, is_negative,
}
use ynab_go.Milliunits.Text.{magnitude_lem}

-- With at most three decimals a magnitude within 2^63 is rounded to the nearest multiple, ties up:
-- what the result stands for is above the magnitude by at most half a unit of the last decimal, and
-- below it by less than half a unit.
pub rescale_nearest :
    (digits u : ℕ)
    → digits ≤ 3
    → u ≤ 2 ^ 63
    → (2 * (rescale digits u * pow10 (3 - digits)) ≤ 2 * u + pow10 (3 - digits))
      × (2 * u < 2 * (rescale digits u * pow10 (3 - digits)) + pow10 (3 - digits))
unfolding rescale pow10
rescale_nearest zero u h k = omega arith
rescale_nearest (suc zero) u h k = omega arith
rescale_nearest (suc (suc zero)) u h k = omega arith
rescale_nearest (suc (suc (suc zero))) u h k = omega arith
rescale_nearest (suc (suc (suc (suc d)))) u h k = absurd (omega arith)

-- A format of three decimals behind a point, with no groups and no symbol.
abbrev pub IsPlain : CurrencyFormat → Type 0
IsPlain f =
    (f.decimal_digits ≡ pos 3)
    × (f.decimal_separator ≡ codes ".")
    × (f.group_separator ≡ [])
    × (f.display_symbol ≡ false)

format_number_plain :
    (u : ℕ) (f : CurrencyFormat)
    → IsPlain f
    → format_number 3 u f ≡ format_uint (u / 1000) ++ b'.' ∷ pad 3 (u % 1000)
unfolding format_number pad
format_number_plain u f (d, sep, group, symbol) = rw (sep, group) refl

rescale_three : (u : ℕ) → u ≤ 2 ^ 63 → rescale 3 u ≡ u
unfolding rescale pow10
rescale_three u h = omega arith

magnitude_le : (m : ℤ) → IsInt64 m → magnitude m ≤ 2 ^ 63
magnitude_le m h = rw (magnitude_lem m h) (ground arith)

signed_prefix :
    (b : Bool) (s : Bytes) → (if b then b'-' ∷ [] else []) ++ s ≡ (if b then b'-' ∷ s else s)
signed_prefix true s = refl
signed_prefix false s = refl

-- A plain format (IsPlain) prints every int64 amount as String does.
pub format-to_string :
    (m : ℤ) (f : CurrencyFormat) → IsInt64 m → IsPlain f → format m f ≡ to_string m
unfolding format to_string
format-to_string m f h p =
    simp
      (
        p.0,
        p.3,
        rescale_three _ (magnitude_le m h),
        format_number_plain (magnitude m) f p,
        append-nil,
      )
      (signed_prefix (is_negative m) _)
