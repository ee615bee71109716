-- ===== src/Date/Ordering.antt =====
-- Date.Compare is the chronological order.
use ynab_go.Base.{◌≡◌, ◌↔◌, ◌⊎◌, true, arith}
use ynab_go.Base.Int.{pos, ◌<ℤ◌, neg}
use ynab_go.Date.{Day, compare_int, compare_day, before}

-- Earlier by year, then month, then day.
abbrev pub IsEarlier : Day → Day → Type 0
IsEarlier d o =
    (d.year <ℤ o.year)
    ⊎ ((d.year ≡ o.year) × ((d.month <ℤ o.month) ⊎ ((d.month ≡ o.month) × (d.day <ℤ o.day))))

-- Before says whether a date is earlier by year, then month, then day.
pub before_iff : (d o : Day) → (before d o ≡ true) ↔ IsEarlier d o
unfolding before compare_day compare_int
before_iff d o = (ground arith, ground arith)

-- Compare answers 0 only for equal dates, and the opposite for the opposite order.
pub compare_day_lem :
    (d o : Day) → ((compare_day d o ≡ pos 0) ↔ (d ≡ o)) × (compare_day o d ≡ neg (compare_day d o))
unfolding compare_day compare_int
compare_day_lem d o = ((ground arith, ground arith), ground arith)
