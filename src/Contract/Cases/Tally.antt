-- ===== src/Contract/Cases/Tally.antt =====
-- The maps that the loops over the cases fill, as counts.
use ynab_go.Base.{
  ℕ, ◌+◌, ◌≡◌, ◌≢◌, ◌⊎◌, inl, inr, refl, Bool-cases, List, [], ◌∷◌, arith, Bytes, bytes_eq,
  bytes_eq_iff, if◌then◌else◌,
}
use ynab_go.Std.Maps.{Map, lookup, insert, lookup-insert}
use ynab_go.Contract.Params.{IsIn}
use ynab_go.Contract.Cases.{count_at, tally}

-- How often a text stands in a list.
abbrev pub occurrences : Bytes → List Bytes → ℕ
occurrences k [] = 0
occurrences k (x ∷ xs) = (if bytes_eq k x then 1 else 0) + occurrences k xs

tally_from :
    (m : Map ℕ) (k : Bytes) (xs : List Bytes)
    → count_at (tally m xs) k ≡ count_at m k + occurrences k xs
unfolding tally count_at
tally_from m k [] = omega arith
tally_from m k (x ∷ xs) = ground (
  arith,
  tally_from (insert x (count_at m x + 1) m) k xs,
  lookup-insert k x (count_at m x + 1) m,
  bytes_eq_iff k x,
)

pub tally-count : (k : Bytes) (xs : List Bytes) → count_at (tally [] xs) k ≡ occurrences k xs
unfolding count_at lookup
tally-count k xs = omega (arith, tally_from [] k xs)

-- A count is 0 for a text that is missing, and not 0 for one that is there.
pub occurrences_cases :
    (k : Bytes) (xs : List Bytes)
    → ((occurrences k xs ≡ 0) × (¬ IsIn k xs)) ⊎ ((occurrences k xs ≢ 0) × IsIn k xs)
occurrences_cases k [] = inl (refl, λ i. i)
occurrences_cases k (x ∷ xs) =
    let same = bytes_eq_iff k x in
    elim (Bool-cases (bytes_eq k x)) [
      | inl hit ↦ inr (ground (arith, hit), inl (same.0 hit))
      | inr miss ↦ elim (occurrences_cases k xs) [
        | inl (zero_yet, missing) ↦ inl (
          ground (arith, miss, zero_yet),
          λ i. elim i [
            | inl e ↦ let b = same.1 e in absurd (ground (arith, b, miss))
            | inr later ↦ missing later
          ],
        )
        | inr (some_yet, there) ↦ inr (ground (arith, miss, some_yet), inr there)
      ]
    ]
