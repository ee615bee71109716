-- ===== src/Milliunits.antt =====
-- milliunits.go: an amount is an int64 of thousandths, here an integer in the int64 range, and each
-- operation wraps its exact result. A byte list stands for a Go string, and `none` for an error or a
-- panic. `Units`, which gives a float for display, is not modelled.
pub mod Split
pub mod Text
pub mod Rounding
pub mod Spacing
pub mod Grouping
mod Tests
use ynab_go.Base.{
  ℕ, zero, suc, ◌+◌, ◌-◌, ◌*◌, ◌/◌, ◌%◌, ◌^◌, min, Bool, true, false, not, ◌&&◌, ◌||◌, Option, none,
  some, List, [], ◌∷◌, ◌++◌, Bytes, codes, ◌==◌, ltb, if◌then◌else◌, length, take, drop, replicate,
  is_nil,
}
use ynab_go.Base.Int.{
  ℤ, pos, negsuc, pos_part, neg_part, sub_ℕ, ◌+ℤ◌, ◌-ℤ◌, ◌*ℤ◌, neg as neg_ℤ, ltb_ℤ, leb_ℤ,
}
use ynab_go.Base.Word.{wrap}
use ynab_go.Std.Strings.{cut}
use ynab_go.Std.Strconv.{format_uint, pad, parse_int}

abbrev pub Milliunits : Type 0
Milliunits = ℤ

pub units_to_milliunits : ℤ → Milliunits
units_to_milliunits units = wrap (units *ℤ pos 1000)

unfoldable pub add : Milliunits → Milliunits → Milliunits
add m o = wrap (m +ℤ o)

pub sub : Milliunits → Milliunits → Milliunits
sub m o = wrap (m -ℤ o)

pub neg : Milliunits → Milliunits
neg m = wrap (neg_ℤ m)

pub abs : Milliunits → Milliunits
unfolding neg
abs m = if ltb_ℤ m (pos 0) then neg m else m

pub mul_int : Milliunits → ℤ → Milliunits
mul_int m k = wrap (m *ℤ k)

-- Go's `/` and `%` by a positive number: towards zero, and with the sign of the dividend.
pub quo : ℤ → ℕ → ℤ
quo (pos a) n = pos (a / n)
quo (negsuc a) n = sub_ℕ 0 (suc a / n)

pub rem : ℤ → ℕ → ℤ
rem (pos a) n = pos (a % n)
rem (negsuc a) n = sub_ℕ 0 (suc a % n)

-- The milliunit by which the first parts are larger in magnitude.
pub step_of : Milliunits → Milliunits
step_of r = if ltb_ℤ r (pos 0) then negsuc 0 else pos 1

-- The loop of SplitEven from index `i`, with the number of rounds left.
pub fill : ℕ → ℕ → Milliunits → Milliunits → Milliunits → List Milliunits
fill zero i quotient extra step = []
fill (suc rounds) i quotient extra step =
    (if ltb_ℤ (pos i) extra then add quotient step else quotient)
    ∷ fill rounds (i + 1) quotient extra step

-- `none` is the panic at n <= 0.
pub split_even : Milliunits → ℤ → Option (List Milliunits)
unfolding quo rem
split_even m (negsuc k) = none
split_even m (pos zero) = none
split_even m (pos (suc k)) =
    let r = rem m (suc k) in some (fill (suc k) 0 (quo m (suc k)) (abs r) (step_of r))

-- |m|, exact at the smallest int64 too.
pub magnitude : Milliunits → ℕ
unfolding neg
magnitude (pos n) = n
magnitude (negsuc n) = if suc n == 2 ^ 63 then 2 ^ 63 else pos_part (neg (negsuc n))

pub is_negative : Milliunits → Bool
is_negative m = ltb_ℤ m (pos 0)

-- `String`.
pub to_string : Milliunits → Bytes
unfolding is_negative
to_string m =
    let u = magnitude m in
    let s = format_uint (u / 1000) ++ b'.' ∷ pad 3 (u % 1000) in
    if is_negative m then b'-' ∷ s else s

-- ParseMilliunits behind the sign.
pub parse_unsigned : Bytes → Bytes → Option Milliunits
parse_unsigned sign num =
    let (int_part, frac, has_frac) = cut b'.' num in
    if is_nil int_part || (has_frac && (is_nil frac || ltb 3 (length frac)))
    then none
    else parse_int (sign ++ (int_part ++ (frac ++ replicate (3 - length frac) b'0')))

pub parse_milliunits : Bytes → Option Milliunits
unfolding parse_unsigned
parse_milliunits [] = parse_unsigned [] []
parse_milliunits (c ∷ num) =
    if c == b'+' || c == b'-' then parse_unsigned (c ∷ []) num else parse_unsigned [] (c ∷ num)

-- CurrencyFormat, the plan's rendering metadata.
pub record CurrencyFormat : Type 0 where
  pub iso_code : Bytes
  pub example_format : Bytes
  pub decimal_digits : ℤ
  pub decimal_separator : Bytes
  pub symbol_first : Bool
  pub group_separator : Bytes
  pub currency_symbol : Bytes
  pub display_symbol : Bool

pub pow10 : ℕ → ℕ
pow10 zero = 1
pow10 (suc n) = pow10 n * 10

-- The loop of groupDigits behind its first group; `out` is what the builder holds.
pub group_from : Bytes → Bytes → Bytes → Bytes
group_from sep (a ∷ b ∷ c ∷ s) out =
    group_from sep s ((if is_nil out then out else out ++ sep) ++ a ∷ b ∷ c ∷ [])
group_from sep _ out = out

pub group_digits : Bytes → Bytes → Bytes
unfolding group_from
group_digits s sep =
    if is_nil sep || not (ltb 3 (length s))
    then s
    else let lead = length s % 3 in group_from sep (drop lead s) (take lead s)

-- The magnitude at the requested number of decimals, in uint64 arithmetic.
pub rescale : ℕ → ℕ → ℕ
unfolding pow10
rescale digits u =
    if ltb 3 digits
    then u * pow10 (digits - 3) % 2 ^ 64
    else let div = pow10 (3 - digits) in (u + div / 2) % 2 ^ 64 / div

-- min(max(DecimalDigits, 0), 10)
pub clamp_digits : ℤ → ℕ
clamp_digits d = min (pos_part d) 10

-- The fraction behind its separator, or nothing at no decimals.
pub format_fraction : ℕ → ℕ → Bytes → Bytes
unfolding pow10
format_fraction digits u separator =
    let frac = format_uint (u % pow10 digits) in
    if ltb 0 digits then separator ++ (replicate (digits - length frac) b'0' ++ frac) else []

pub format_number : ℕ → ℕ → CurrencyFormat → Bytes
unfolding group_digits pow10 format_fraction
format_number digits u f =
    group_digits (format_uint (u / pow10 digits)) f.group_separator
    ++ format_fraction digits u f.decimal_separator

pub format : Milliunits → CurrencyFormat → Bytes
unfolding is_negative clamp_digits
format m f =
    let digits = clamp_digits f.decimal_digits in
    let number = format_number digits (rescale digits (magnitude m)) f in
    (if is_negative m then b'-' ∷ [] else [])
    ++ ((if f.display_symbol && f.symbol_first then f.currency_symbol else [])
        ++ (number ++ (if f.display_symbol && not f.symbol_first then f.currency_symbol else [])))
