-- ===== src/Milliunits/Tests.antt =====
-- Runs, and the theorems at concrete amounts.
use ynab_go.Base.{
  ◌+◌, ◌-◌, ◌/◌, ◌^◌, ◌≡◌, refl, true, false, none, some, List, [], ◌∷◌, arith, length, codes,
}
use ynab_go.Base.Int.{ℤ, pos, negsuc, ◌+ℤ◌}
use ynab_go.Base.Word.{wrap}
use ynab_go.Std.Strings.{cut}
use ynab_go.Std.Strconv.{format_uint, pad, parse_int}
use ynab_go.Milliunits.{
  add, neg, abs, fill, step_of, split_even, magnitude, to_string, parse_milliunits, CurrencyFormat,
  pow10, group_digits, rescale, format, format_number,
}
use ynab_go.Milliunits.Split.{IsSplitOf, split_even-IsSplitOf}
use ynab_go.Milliunits.Text.{parse-to_string}
use ynab_go.Milliunits.Rounding.{format-to_string}
use ynab_go.Milliunits.Spacing.{spaced}
use ynab_go.Milliunits.Grouping.{erase, group_digits_lem}

least : to_string (negsuc (2 ^ 63 - 1)) ≡ codes "-9223372036854775.808"
unfolding to_string magnitude pad format_uint
least = refl

fifths : split_even (negsuc 9) (pos 4) ≡ some (negsuc 2 ∷ negsuc 2 ∷ negsuc 1 ∷ negsuc 1 ∷ [])
unfolding split_even step_of fill abs neg add wrap ◌+ℤ◌
fifths = refl

no_parts : split_even (pos 7) (pos 0) ≡ none
unfolding split_even
no_parts = refl

reads_one : parse_milliunits (codes "+1") ≡ some (pos 1000)
unfolding parse_milliunits cut parse_int
reads_one = refl

refuses_four : parse_milliunits (codes "1.2345") ≡ none
unfolding parse_milliunits cut parse_int
refuses_four = refl

abbrev euro : CurrencyFormat
euro = record {
  iso_code = codes "EUR";
  example_format = codes "";
  decimal_digits = pos 2;
  decimal_separator = codes ",";
  symbol_first = false;
  group_separator = codes ".";
  currency_symbol = codes "E";
  display_symbol = true;
}

in_euros : format (negsuc 1234565004) euro ≡ codes "-1.234.565,01E"
unfolding format format_number group_digits format_uint magnitude rescale pow10 neg wrap
in_euros = refl

abbrev plain : CurrencyFormat
plain = record euro {
  decimal_digits = pos 3;
  decimal_separator = codes ".";
  group_separator = [];
  display_symbol = false;
}

-- More decimals than the wire ever asks for wrap in uint64: two amounts print alike.
wraps_at_ten : rescale 10 (2 ^ 57) ≡ rescale 10 0
unfolding rescale pow10
wraps_at_ten = refl

split_even-IsSplitOf_example :
    (ps : List ℤ) × (split_even (negsuc 9) (pos 4) ≡ some ps) × IsSplitOf (negsuc 9) 4 ps
split_even-IsSplitOf_example =
    split_even-IsSplitOf (negsuc 9) 4 (omega arith) (omega arith) (omega arith)

parse-to_string_example :
    parse_milliunits (to_string (negsuc (2 ^ 63 - 1))) ≡ some (negsuc (2 ^ 63 - 1))
parse-to_string_example = parse-to_string (negsuc (2 ^ 63 - 1)) (omega arith)

format-to_string_example : format (negsuc 219) plain ≡ to_string (negsuc 219)
format-to_string_example =
    format-to_string (negsuc 219) plain (omega arith) (refl, refl, refl, refl)

group_digits_lem_example :
    (group_digits (codes "1234567") (codes ", ") ≡ spaced (codes ", ") (codes "1234567"))
    × ((erase b',' (group_digits (codes "1234567") (b',' ∷ [])) ≡ codes "1234567")
        × (length (group_digits (codes "1234567") (b',' ∷ []))
            ≡ length (codes "1234567") + (length (codes "1234567") - 1) / 3))
group_digits_lem_example = group_digits_lem b',' (codes ", ") (codes "1234567") (omega arith)
