-- ===== src/Date.antt =====
-- date.go and month.go: calendar days and plan months in their wire form. time.Parse at the layout
-- 2006-01-02 is the parameter `parse_layout`, and time.Time.AddDate the parameter `add_date`.
pub mod Wire
pub mod Ordering
mod Tests
use ynab_go.Base.{
  ℕ, suc, ◌-◌, Bool, true, false, ◌&&◌, ◌||◌, not, Option, none, some, List, [], ◌∷◌, ◌++◌, Bytes,
  codes, bytes_eq, ◌==◌, if◌then◌else◌, is_nil,
}
use ynab_go.Base.Int.{ℤ, pos, negsuc, eqb_ℤ, ltb_ℤ}
use ynab_go.Std.Strconv.{pad}
use ynab_go.Errors.{ArgumentError}

-- `Date`.
pub record Day : Type 0 where
  pub year : ℤ
  pub month : ℤ
  pub day : ℤ

abbrev pub no_day : Day
no_day = record { year = pos 0; month = pos 0; day = pos 0 }

-- `Date.IsZero`.
unfoldable pub is_zero_day : Day → Bool
is_zero_day d = eqb_ℤ d.year (pos 0) && (eqb_ℤ d.month (pos 0) && eqb_ℤ d.day (pos 0))

-- cmp.Compare on ints.
unfoldable pub compare_int : ℤ → ℤ → ℤ
compare_int a b = if ltb_ℤ a b then negsuc 0 else if ltb_ℤ b a then pos 1 else pos 0

-- `Date.Compare`.
unfoldable pub compare_day : Day → Day → ℤ
unfolding compare_int
compare_day d o =
    if eqb_ℤ d.year o.year && (eqb_ℤ d.month o.month && eqb_ℤ d.day o.day)
    then pos 0
    else if not (eqb_ℤ d.year o.year)
    then compare_int d.year o.year
    else if not (eqb_ℤ d.month o.month)
    then compare_int d.month o.month
    else compare_int d.day o.day

-- `Date.Before` and `Date.After`.
unfoldable pub before : Day → Day → Bool
before d o = ltb_ℤ (compare_day d o) (pos 0)

unfoldable pub after : Day → Day → Bool
after d o = ltb_ℤ (pos 0) (compare_day d o)

-- fmt's %0wd.
unfoldable pub pad_int : ℕ → ℤ → Bytes
pad_int width (pos n) = pad width n
pad_int width (negsuc n) = b'-' ∷ pad (width - 1) (suc n)

-- `Date.String`.
unfoldable pub day_string : Day → Bytes
unfolding pad_int is_zero_day
day_string d =
    if is_zero_day d
    then []
    else pad_int 4 d.year ++ (b'-' ∷ (pad_int 2 d.month ++ (b'-' ∷ pad_int 2 d.day)))

-- time.Time.AddDate on a midnight in UTC, by years, months and days.
abbrev pub AddDate : Type 0
AddDate = ℤ → ℤ → ℤ → Day → Day

-- `Date.AddDays` and `Date.AddMonths`.
unfoldable pub add_days : AddDate → ℤ → Day → Day
add_days add_date n d = if is_zero_day d then d else add_date (pos 0) (pos 0) n d

unfoldable pub add_months : AddDate → ℤ → Day → Day
add_months add_date n d = if is_zero_day d then d else add_date (pos 0) n (pos 0) d

abbrev pub quoted : Bytes → Bytes
quoted s = b'"' ∷ s ++ (b'"' ∷ [])

-- `Date.MarshalJSON`.
unfoldable pub marshal_day : Day → Bytes
unfolding day_string
marshal_day d = if is_zero_day d then codes "null" else quoted (day_string d)

-- The text between two quotes, if there are two.
unfoldable pub up_to_quote : Bytes → Option Bytes
up_to_quote [] = none
up_to_quote (c ∷ []) = if c == b'"' then some [] else none
up_to_quote (c ∷ d ∷ s) = elim (up_to_quote (d ∷ s)) [ none ↦ none | some t ↦ some (c ∷ t) ]

unfoldable pub unquote : Bytes → Option Bytes
unfolding up_to_quote
unquote [] = none
unquote (c ∷ s) = if c == b'"' then up_to_quote s else none

-- `Month`, with the sentinel `current` of CurrentMonth.
pub record Month : Type 0 where
  pub year : ℤ
  pub month : ℤ
  pub current : Bool

abbrev pub no_month : Month
no_month = record { year = pos 0; month = pos 0; current = false }

-- `CurrentMonth`.
abbrev pub current_month : Month
current_month = record { year = pos 0; month = pos 0; current = true }

-- `Month.IsZero`.
unfoldable pub is_zero_month : Month → Bool
is_zero_month m = eqb_ℤ m.year (pos 0) && (eqb_ℤ m.month (pos 0) && not m.current)

-- `Month.Compare`.
unfoldable pub compare_month : Month → Month → ℤ
compare_month m o =
    if not (eqb_ℤ m.year o.year) then compare_int m.year o.year else compare_int m.month o.month

-- `Month.FirstDay`.
unfoldable pub first_day : Month → Day
first_day m =
    if is_zero_month m || m.current
    then no_day
    else record { year = m.year; month = m.month; day = pos 1 }

-- `Month.String`.
unfoldable pub month_string : Month → Bytes
month_string m =
    if m.current
    then codes "current"
    else if is_zero_month m
    then []
    else pad_int 4 m.year ++ (b'-' ∷ (pad_int 2 m.month ++ codes "-01"))

-- `Month.MarshalJSON`.
unfoldable pub marshal_month : Month → Bytes
unfolding month_string
marshal_month m = if is_zero_month m then codes "null" else quoted (month_string m)

-- `zeroMonthError`.
unfoldable pub zero_month_error : Bytes → ArgumentError
zero_month_error op = record {
  op = op;
  field = codes "month";
  reason = codes "month must not be zero";
}

module _ (parse_layout : Bytes → Option Day) where
  -- `ParseDate`; `none` stands for its errors.
  unfoldable pub parse_date : Bytes → Option Day
  unfolding day_string
  parse_date s = elim (parse_layout s) [
    | none ↦ none
    | some d ↦ if bytes_eq (day_string d) s then some d else none
  ]

  -- `Date.UnmarshalJSON`: the new value, or `none` with the old one kept.
  unfoldable pub unmarshal_day : Bytes → Option Day
  unfolding parse_date
  unmarshal_day input =
      if bytes_eq input (codes "null")
      then some no_day
      else (elim (unquote input) [ none ↦ none | some s ↦ parse_date s ])

  unfoldable pub month_of_day : Option Day → Option Month
  month_of_day none = none
  month_of_day (some d) =
      if eqb_ℤ d.day (pos 1)
      then some (record { year = d.year; month = d.month; current = false })
      else none

  -- `ParseMonth`.
  unfoldable pub parse_month : Bytes → Option Month
  unfolding parse_date month_of_day
  parse_month s =
      if bytes_eq s (codes "current") then some current_month else month_of_day (parse_date s)

  -- `Month.UnmarshalJSON`.
  unfoldable pub unmarshal_month : Bytes → Option Month
  unfolding parse_month
  unmarshal_month input =
      if bytes_eq input (codes "null")
      then some no_month
      else (elim (unquote input) [ none ↦ none | some s ↦ parse_month s ])
