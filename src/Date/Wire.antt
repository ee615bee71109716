-- ===== src/Date/Wire.antt =====
-- What is read from the wire is written back as it was.
use ynab_go.Base.{
  ◌≡◌, ◌∙◌, sym, ap, inl, inr, refl, true, false, Option, none, some, [], ◌∷◌, ◌++◌, arith, Bytes,
  codes, bytes_eq, bytes_eq_iff, Bool-cases, Option-cases,
}
use ynab_go.Base.Int.{ℤ, pos, eqb_ℤ, ◌≤ℤ◌}
use ynab_go.Std.Strconv.{pad, format_uint}
use ynab_go.Date.{
  Day, no_day, is_zero_day, day_string, quoted, marshal_day, up_to_quote, unquote, Month, no_month,
  current_month, is_zero_month, month_string, marshal_month, parse_date, unmarshal_day,
  month_of_day, parse_month, unmarshal_month, pad_int,
}

up_to_quote_lem : (s t : Bytes) → up_to_quote s ≡ some t → s ≡ t ++ b'"' ∷ []
unfolding up_to_quote
up_to_quote_lem [] t h = ground arith
up_to_quote_lem (c ∷ []) t h = ground arith
up_to_quote_lem (c ∷ d ∷ s) t h = elim (Option-cases (up_to_quote (d ∷ s))) [
  | inl missing ↦ absurd (ground arith)
  | inr (u, found) ↦ ground (arith, up_to_quote_lem (d ∷ s) u found)
]

unquote_lem : (s t : Bytes) → unquote s ≡ some t → s ≡ quoted t
unfolding unquote
unquote_lem [] t h = ground arith
unquote_lem (c ∷ s) t h = ground (arith, up_to_quote_lem s t)

zero_string : (d : Day) → is_zero_day d ≡ true → day_string d ≡ []
unfolding day_string
zero_string d h = rw h refl

marshal_full : (d : Day) → is_zero_day d ≡ false → marshal_day d ≡ quoted (day_string d)
unfolding marshal_day
marshal_full d h = rw h refl

marshal_month_full :
    (m : Month) → is_zero_month m ≡ false → marshal_month m ≡ quoted (month_string m)
unfolding marshal_month
marshal_month_full m h = rw h refl

first_padded : pad_int 2 (pos 1) ≡ codes "01"
unfolding pad_int pad format_uint
first_padded = refl

-- A concrete month is written like its first day.
month_string_day :
    (d : Day)
    → pos 1 ≤ℤ d.month
    → d.day ≡ pos 1
    → month_string (record { year = d.year; month = d.month; current = false }) ≡ day_string d
unfolding month_string day_string is_zero_month is_zero_day
month_string_day d h e = ground (arith, first_padded)

concrete_month :
    (y m : ℤ) → pos 1 ≤ℤ m → is_zero_month (record { year = y; month = m; current = false }) ≡ false
unfolding is_zero_month
concrete_month y m h = ground arith

module _ (parse_layout : Bytes → Option Day) where
  parse_date_lem :
      (s : Bytes) (d : Day)
      → parse_date parse_layout s ≡ some d
      → (parse_layout s ≡ some d) × (day_string d ≡ s)
  unfolding parse_date
  parse_date_lem s d h = elim (Option-cases (parse_layout s)) [
    | inl bad ↦ absurd (ground arith)
    | inr (e, got) ↦ ground (arith, bytes_eq_iff (day_string e) s)
  ]

  -- Whatever bytes a date is decoded from, it is encoded to the same bytes, if time.Parse refuses
  -- the empty text.
  pub unmarshal-marshal_day :
      (input : Bytes) (d : Day)
      → parse_layout [] ≡ none
      → unmarshal_day parse_layout input ≡ some d
      → marshal_day d ≡ input
  unfolding unmarshal_day
  unmarshal-marshal_day input d empty h = elim (Bool-cases (bytes_eq input (codes "null"))) [
    | inl null ↦
        let same : input ≡ codes "null" = (bytes_eq_iff input (codes "null")).0 null in
        let zero_day : d ≡ no_day = ground arith in
        rw (zero_day, same) (unfold marshal_day is_zero_day in refl)
    | inr other ↦ elim (Option-cases (unquote input)) [
      | inl bare ↦ absurd (ground arith)
      | inr (s, text) ↦
          let parsed = parse_date_lem s d (ground arith) in
          elim (Bool-cases (is_zero_day d)) [
            | inl nothing ↦ absurd (ground (arith, zero_string d nothing))
            | inr real ↦ marshal_full d real ∙ ap quoted parsed.1 ∙ sym (unquote_lem input s text)
          ]
    ]
  ]

  parse_month_lem :
      (s : Bytes) (m : Month)
      → ((r : Bytes) (d : Day) → parse_layout r ≡ some d → pos 1 ≤ℤ d.month)
      → parse_month parse_layout s ≡ some m
      → (is_zero_month m ≡ false) × (month_string m ≡ s)
  unfolding parse_month month_of_day
  parse_month_lem s m months h = elim (Bool-cases (bytes_eq s (codes "current"))) [
    | inl literal ↦
        let same : s ≡ codes "current" = (bytes_eq_iff s (codes "current")).0 literal in
        let sentinel : m ≡ current_month = ground arith in
        rw (sentinel, same) (unfold is_zero_month month_string in (refl, refl))
    | inr other ↦ elim (Option-cases (parse_date parse_layout s)) [
      | inl bad ↦ absurd (ground arith)
      | inr (d, got) ↦
          let parsed = parse_date_lem s d got in
          let late = months s d parsed.0 in
          elim (Bool-cases (eqb_ℤ d.day (pos 1))) [
            | inl first ↦
                let built : m ≡ record { year = d.year; month = d.month; current = false } =
                  ground arith in
                rw built (
                  concrete_month d.year d.month late,
                  month_string_day d late (ground arith) ∙ parsed.1,
                )
            | inr later ↦ absurd (ground arith)
          ]
    ]
  ]

  -- Whatever bytes a month is decoded from, it is encoded to the same bytes, if the months of
  -- time.Parse count from 1.
  pub unmarshal-marshal_month :
      (input : Bytes) (m : Month)
      → ((r : Bytes) (d : Day) → parse_layout r ≡ some d → pos 1 ≤ℤ d.month)
      → unmarshal_month parse_layout input ≡ some m
      → marshal_month m ≡ input
  unfolding unmarshal_month
  unmarshal-marshal_month input m months h = elim (Bool-cases (bytes_eq input (codes "null"))) [
    | inl null ↦
        let same : input ≡ codes "null" = (bytes_eq_iff input (codes "null")).0 null in
        let zero_month : m ≡ no_month = ground arith in
        rw (zero_month, same) (unfold marshal_month is_zero_month in refl)
    | inr other ↦ elim (Option-cases (unquote input)) [
      | inl bare ↦ absurd (ground arith)
      | inr (s, text) ↦
          let parsed = parse_month_lem s m months (ground arith) in
          marshal_month_full m parsed.0 ∙ ap quoted parsed.1 ∙ sym (unquote_lem input s text)
    ]
  ]
