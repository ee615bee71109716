-- ===== src/Milliunits/Text.antt =====
-- String and ParseMilliunits: the exact 3-decimal form is read back, and a text is read exactly.
use ynab_go.Base.{
  ℕ, suc, ◌+◌, ◌-◌, ◌*◌, ◌/◌, ◌%◌, ◌^◌, ◌≤◌, ◌<◌, ◌≡◌, refl, ap, ◌∙◌, true, false, ◌||◌, some, [],
  ◌∷◌, ◌++◌, append-nil, arith, All, length, length-append, ◌==◌, if◌then◌else◌, Bytes, replicate,
}
use ynab_go.Base.Int.{ℤ, pos, negsuc, pos_part, neg_part, ltb_ℤ}
use ynab_go.Base.Word.{wrap, IsInt64}
use ynab_go.Std.Strings.{cut-append, Lacks}
use ynab_go.Std.Strconv.{
  format_uint, format_uint_step, pad, parse_int, signed, in_range, value_from, IsDigit,
  format_uint-IsDigit, value_from-append, value_from-format_uint,
}
use ynab_go.Milliunits.{neg, magnitude, is_negative, to_string, parse_unsigned, parse_milliunits}

pub magnitude_lem : (m : ℤ) → IsInt64 m → magnitude m ≡ pos_part m + neg_part m
unfolding magnitude neg wrap
magnitude_lem (pos n) h = omega arith
magnitude_lem (negsuc n) h = ground arith

-- The three digits of a remainder.
abbrev three_digits : ℕ → Bytes
three_digits r = (b'0' + r / 100) ∷ (b'0' + r / 10 % 10) ∷ (b'0' + r % 10) ∷ []

pad_three : (r : ℕ) → r < 1000 → pad 3 r ≡ three_digits r
unfolding pad
pad_three r h =
    ground (arith, format_uint_step r, format_uint_step (r / 10), format_uint_step (r / 10 / 10))

IsDigit-Lacks : (s : Bytes) → All IsDigit s → Lacks b'.' s
IsDigit-Lacks [] h = tt
IsDigit-Lacks (c ∷ s) h = (omega arith, IsDigit-Lacks s h.1)

value_three : (q r : ℕ) → r < 1000 → value_from q (three_digits r) ≡ some (q * 1000 + r)
unfolding value_from
value_three q r h = ground arith

-- The digits that ParseMilliunits hands to strconv spell the magnitude.
value-string : (u : ℕ) → value_from 0 (format_uint (u / 1000) ++ three_digits (u % 1000)) ≡ some u
value-string u =
    rw
      (
        value_from-append _ (three_digits (u % 1000)) 0 (u / 1000)
            (value_from-format_uint (u / 1000)),
        value_three (u / 1000) (u % 1000) (omega arith),
      )
      (ground arith)

length-format_uint_pos : (n : ℕ) → 0 < length (format_uint n)
length-format_uint_pos n =
    ground (arith, format_uint_step n, length-append (format_uint (n / 10)) ((b'0' + n % 10) ∷ []))

-- A number prints at least one byte, and the first is a digit, no sign.
format_uint-head : (n : ℕ) → (c : ℕ) × (s : Bytes) × (format_uint n ≡ c ∷ s) × IsDigit c
format_uint-head n = go (format_uint n) (format_uint-IsDigit n) (length-format_uint_pos n)
  where
    go :
        (t : Bytes) → All IsDigit t → 0 < length t → (c : ℕ) × (s : Bytes) × (t ≡ c ∷ s) × IsDigit c
    go [] h k = absurd (omega arith)
    go (c ∷ s) h k = (c, s, refl, h.0)

-- Three fraction digits behind a point: strconv reads the two parts joined.
parse_unsigned_three :
    (sign : Bytes) (c : ℕ) (s : Bytes) (r : ℕ)
    → Lacks b'.' (c ∷ s)
    → parse_unsigned sign ((c ∷ s) ++ b'.' ∷ three_digits r)
      ≡ parse_int (sign ++ ((c ∷ s) ++ three_digits r))
unfolding parse_unsigned
parse_unsigned_three sign c s r h = rw (cut-append b'.' (c ∷ s) (three_digits r) h, append-nil) refl

parse_int_plain :
    (c : ℕ) (s : Bytes) → IsDigit c → parse_int (c ∷ s) ≡ signed false (value_from 0 (c ∷ s))
unfolding parse_int
parse_int_plain c s h = ground arith

parse_int_minus :
    (c : ℕ) (s : Bytes) → parse_int (b'-' ∷ c ∷ s) ≡ signed true (value_from 0 (c ∷ s))
unfolding parse_int
parse_int_minus c s = refl

-- The text of a magnitude behind a sign that is none or a minus.
abbrev printed : ℕ → Bytes
printed u = format_uint (u / 1000) ++ b'.' ∷ three_digits (u % 1000)

module _ (c : ℕ) (s : Bytes) (r u : ℕ) (digit : IsDigit c) (lacks : Lacks b'.' (c ∷ s))
    (spells : value_from 0 ((c ∷ s) ++ three_digits r) ≡ some u) where
  parse_plain : parse_milliunits ((c ∷ s) ++ b'.' ∷ three_digits r) ≡ signed false (some u)
  unfolding parse_milliunits
  parse_plain =
      rw (plain, parse_unsigned_three [] c s r lacks, parse_int_plain c _ digit, spells) refl
    where
      plain : (c == b'+' || c == b'-') ≡ false
      plain = ground arith

  parse_minus : parse_milliunits (b'-' ∷ (c ∷ s) ++ b'.' ∷ three_digits r) ≡ signed true (some u)
  unfolding parse_milliunits
  parse_minus = rw (parse_unsigned_three (b'-' ∷ []) c s r lacks, parse_int_minus c _, spells) refl

parse_printed : (u : ℕ) → parse_milliunits (printed u) ≡ signed false (some u)
parse_printed u =
    let (c, s, e, d) = format_uint-head (u / 1000) in
    rw e (
      parse_plain c s (u % 1000) u d (rw e at (IsDigit-Lacks _ (format_uint-IsDigit (u / 1000))))
        (rw e at (value-string u)))

parse_printed_minus : (u : ℕ) → parse_milliunits (b'-' ∷ printed u) ≡ signed true (some u)
parse_printed_minus u =
    let (c, s, e, d) = format_uint-head (u / 1000) in
    rw e (
      parse_minus c s (u % 1000) u d (rw e at (IsDigit-Lacks _ (format_uint-IsDigit (u / 1000))))
        (rw e at (value-string u)))

to_string_lem :
    (m : ℤ)
    → IsInt64 m
    → to_string m
      ≡ (let u = pos_part m + neg_part m in if ltb_ℤ m (pos 0) then b'-' ∷ printed u else printed u)
unfolding to_string is_negative
to_string_lem m h =
    rw (magnitude_lem m h, pad_three ((pos_part m + neg_part m) % 1000) (omega arith))

-- For every int64 amount ParseMilliunits reads back what String prints, the smallest int64 included.
pub parse-to_string : (m : ℤ) → IsInt64 m → parse_milliunits (to_string m) ≡ some m
unfolding signed in_range
parse-to_string (pos n) h = rw (to_string_lem (pos n) h) (ground (arith, parse_printed (n + 0)))
parse-to_string (negsuc n) h =
    rw (to_string_lem (negsuc n) h) (ground (arith, parse_printed_minus (0 + suc n)))

-- The digits of a text, and the value that they spell.
abbrev Spells : Bytes → ℕ → Type 0
Spells s v = value_from 0 s ≡ some v

-- A fraction of one to three digits, filled up with zeros, counts thousandths.
value-fraction :
    (f : Bytes) (a b : ℕ)
    → 0 < length f
    → length f ≤ 3
    → Spells f b
    → value_from a (f ++ replicate (3 - length f) b'0') ≡ some (a * 1000 + b * 10 ^ (3 - length f))
unfolding value_from
value-fraction [] a b h k e = absurd (omega arith)
value-fraction (x ∷ []) a b h k e = ground arith
value-fraction (x ∷ y ∷ []) a b h k e = ground arith
value-fraction (x ∷ y ∷ z ∷ []) a b h k e = ground arith
value-fraction (x ∷ y ∷ z ∷ w ∷ f) a b h k e = absurd (omega arith)

Spells-IsDigit : (s : Bytes) (acc v : ℕ) → value_from acc s ≡ some v → All IsDigit s
unfolding value_from
Spells-IsDigit [] acc v h = tt
Spells-IsDigit (c ∷ s) acc v h = ground (arith, Spells-IsDigit s (acc * 10 + (c - b'0')) v)

parse_milliunits_digit :
    (c : ℕ) (s : Bytes) → IsDigit c → parse_milliunits (c ∷ s) ≡ parse_unsigned [] (c ∷ s)
unfolding parse_milliunits
parse_milliunits_digit c s h = ground arith

parse_unsigned_short :
    (sign : Bytes) (c : ℕ) (s : Bytes) (x : ℕ) (f : Bytes)
    → Lacks b'.' (c ∷ s)
    → length (x ∷ f) ≤ 3
    → parse_unsigned sign ((c ∷ s) ++ b'.' ∷ x ∷ f)
      ≡ parse_int (sign ++ ((c ∷ s) ++ ((x ∷ f) ++ replicate (3 - length (x ∷ f)) b'0')))
unfolding parse_unsigned
parse_unsigned_short sign c s x f h k = rw (cut-append b'.' (c ∷ s) (x ∷ f) h) (ground arith)

signed_fits : (v : ℕ) → v < 2 ^ 63 → signed false (some v) ≡ some (pos v)
unfolding signed
signed_fits v h = ground arith

-- A text of digits, a point and one to three digits is read as the exact number of thousandths, if
-- that number is an int64.
pub parse_exact :
    (i f : Bytes) (a b : ℕ)
    → 0 < length i
    → 0 < length f
    → length f ≤ 3
    → value_from 0 i ≡ some a
    → value_from 0 f ≡ some b
    → a * 1000 + b * 10 ^ (3 - length f) < 2 ^ 63
    → parse_milliunits (i ++ b'.' ∷ f) ≡ some (pos (a * 1000 + b * 10 ^ (3 - length f)))
parse_exact [] f a b hi hf kf si sf fits = absurd (omega arith)
parse_exact (c ∷ s) [] a b hi hf kf si sf fits = absurd (omega arith)
parse_exact (c ∷ s) (x ∷ f) a b hi hf kf si sf fits =
    let d = Spells-IsDigit (c ∷ s) 0 a si in
    parse_milliunits_digit c _ d.0
    ∙ parse_unsigned_short [] c s x f (IsDigit-Lacks (c ∷ s) d) kf
    ∙ parse_int_plain c _ d.0
    ∙ ap (signed false) (value_from-append (c ∷ s) _ 0 a si ∙ value-fraction (x ∷ f) a b hf kf sf)
    ∙ signed_fits _ fits
