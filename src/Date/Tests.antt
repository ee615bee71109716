-- ===== src/Date/Tests.antt =====
-- The theorems at concrete days and texts.
use ynab_go.Base.{
  ◌≡◌, refl, false, Option, none, some, [], ◌∷◌, ◌++◌, arith, Bytes, codes, bytes_eq, if◌then◌else◌,
}
use ynab_go.Base.Int.{pos, ◌≤ℤ◌}
use ynab_go.Std.Strconv.{pad, format_uint}
use ynab_go.Date.{
  Day, Month, day_string, is_zero_day, pad_int, unquote, up_to_quote, marshal_day, unmarshal_day,
  parse_date, parse_month, month_of_day, unmarshal_month, marshal_month,
}
use ynab_go.Date.Wire.{unmarshal-marshal_day, unmarshal-marshal_month}

abbrev first : Day
first = record { year = pos 2026; month = pos 3; day = pos 1 }

abbrev ninth : Day
ninth = record { year = pos 2026; month = pos 3; day = pos 9 }

-- A parser that knows one text.
abbrev layout : Bytes → Option Day
layout s = if bytes_eq s (codes "2026-03-01") then some first else none

abbrev march : Month
march = record { year = pos 2026; month = pos 3; current = false }

abbrev input : Bytes
input = b'"' ∷ codes "2026-03-01" ++ (b'"' ∷ [])

day_read : unmarshal_day layout input ≡ some first
unfolding unmarshal_day unquote up_to_quote parse_date day_string is_zero_day pad_int pad
    format_uint bytes_eq
day_read = refl

month_read : unmarshal_month layout input ≡ some march
unfolding unmarshal_month unquote up_to_quote parse_month month_of_day parse_date day_string
    is_zero_day pad_int pad format_uint bytes_eq
month_read = refl

layout_empty : layout [] ≡ none
unfolding bytes_eq
layout_empty = refl

layout_months : (r : Bytes) (d : Day) → layout r ≡ some d → pos 1 ≤ℤ d.month
layout_months r d h = ground arith

unmarshal-marshal_day_example : marshal_day first ≡ input
unmarshal-marshal_day_example = unmarshal-marshal_day layout input first layout_empty day_read

unmarshal-marshal_month_example : marshal_month march ≡ input
unmarshal-marshal_month_example =
    unmarshal-marshal_month layout input march layout_months month_read
