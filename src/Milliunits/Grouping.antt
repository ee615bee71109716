-- ===== src/Milliunits/Grouping.antt =====
-- groupDigits: separators go in, and no digit is lost, moved or added.
use ynab_go.Base.{
  ℕ, zero, suc, ◌+◌, ◌-◌, ◌%◌, ◌/◌, ◌<◌, ◌≡◌, refl, ◌∙◌, [], ◌∷◌, ◌++◌, append_assoc, append-nil,
  arith, length, take, drop, take-append-drop, length-append, Bytes, ◌==◌, ltb, is_nil,
  if◌then◌else◌, Bool-cases, inl, inr,
}
use ynab_go.Std.Strings.{Lacks}
use ynab_go.Milliunits.{group_from, group_digits}
use ynab_go.Milliunits.Spacing.{
  IsTriple, length-drop, IsTriple-drop, length-take, spaced, group_digits-spaced,
}

-- A text without the byte `b`.
abbrev pub erase : ℕ → Bytes → Bytes
erase b [] = []
erase b (c ∷ s) = if c == b then erase b s else c ∷ erase b s

erase-append : (b : ℕ) (s t : Bytes) → erase b (s ++ t) ≡ erase b s ++ erase b t
erase-append b [] t = refl
erase-append b (c ∷ s) t = ground (arith, erase-append b s t)

erase_id : (b : ℕ) (s : Bytes) → Lacks b s → erase b s ≡ s
erase_id b [] h = refl
erase_id b (c ∷ s) h = ground (arith, erase_id b s h.1)

erase_sep : (b : ℕ) → erase b (b ∷ []) ≡ []
erase_sep b = ground arith

-- One round of the loop, seen without the separator.
erase_round :
    (b : ℕ) (out t : Bytes)
    → erase b ((if is_nil out then out else out ++ b ∷ []) ++ t) ≡ erase b out ++ erase b t
erase_round b [] t = refl
erase_round b (c ∷ out) t =
    rw
      (
        erase-append b ((c ∷ out) ++ b ∷ []) t,
        erase-append b (c ∷ out) (b ∷ []),
        erase_sep b,
        append-nil,
      )
      refl

erase-group_from :
    (b : ℕ) (s out : Bytes)
    → IsTriple s
    → Lacks b s
    → erase b (group_from (b ∷ []) s out) ≡ erase b out ++ s
unfolding group_from
erase-group_from b [] out h k = rw append-nil
erase-group_from b (x ∷ []) out h k = absurd (omega arith)
erase-group_from b (x ∷ y ∷ []) out h k = absurd (omega arith)
erase-group_from b (x ∷ y ∷ z ∷ s) out h k =
    erase-group_from b s _ (omega arith) k.1.1.1
    ∙ rw (
      erase_round b out (x ∷ y ∷ z ∷ []),
      erase_id b (x ∷ y ∷ z ∷ []) (k.0, (k.1.0, (k.1.1.0, tt))),
      append_assoc,
    )

-- Each group of three behind the first bytes costs one separator.
length-group_from :
    (b : ℕ) (s : Bytes) (c : ℕ) (out : Bytes)
    → IsTriple s
    → length (group_from (b ∷ []) s (c ∷ out)) ≡ length (c ∷ out) + length s + length s / 3
unfolding group_from
length-group_from b [] c out h = omega arith
length-group_from b (x ∷ []) c out h = absurd (omega arith)
length-group_from b (x ∷ y ∷ []) c out h = absurd (omega arith)
length-group_from b (x ∷ y ∷ z ∷ s) c out h = omega (
  arith,
  length-group_from b s c ((out ++ b ∷ []) ++ x ∷ y ∷ z ∷ []) (omega arith),
  length-append {0} (out ++ b ∷ []) (x ∷ y ∷ z ∷ []),
  length-append {0} out (b ∷ []),
)

Lacks-drop : (b n : ℕ) (s : Bytes) → Lacks b s → Lacks b (drop n s)
Lacks-drop b zero s h = h
Lacks-drop b (suc n) [] h = tt
Lacks-drop b (suc n) (x ∷ s) h = Lacks-drop b n s h.1

Lacks-take : (b n : ℕ) (s : Bytes) → Lacks b s → Lacks b (take n s)
Lacks-take b zero s h = tt
Lacks-take b (suc n) [] h = tt
Lacks-take b (suc n) (x ∷ s) h = (h.0, Lacks-take b n s h.1)

-- Taking the separator out of a grouped text gives the text back, if the text does not hold it.
pub erase-group_digits : (b : ℕ) (s : Bytes) → Lacks b s → erase b (group_digits s (b ∷ [])) ≡ s
unfolding group_digits
erase-group_digits b s h = elim (Bool-cases (ltb 3 (length s))) [
  | inl long ↦ rw long (
      erase-group_from b (drop lead s) (take lead s) (IsTriple-drop s) (Lacks-drop b lead s h)
      ∙ rw (erase_id b (take lead s) (Lacks-take b lead s h)) (take-append-drop lead s))
  | inr short ↦ rw short (erase_id b s h)
]
  where
    lead : ℕ
    lead = length s % 3

-- With nothing written yet the first group of three costs none.
length-group_from-nil :
    (b : ℕ) (s : Bytes)
    → IsTriple s
    → 3 < length s
    → length (group_from (b ∷ []) s []) ≡ length s + (length s - 1) / 3
unfolding group_from
length-group_from-nil b [] h k = absurd (omega arith)
length-group_from-nil b (x ∷ []) h k = absurd (omega arith)
length-group_from-nil b (x ∷ y ∷ []) h k = absurd (omega arith)
length-group_from-nil b (x ∷ y ∷ z ∷ s) h k =
    omega (arith, length-group_from b s x (y ∷ z ∷ []) (omega arith))

length-group_from_any :
    (b : ℕ) (s out : Bytes)
    → IsTriple s
    → length out < 3
    → 3 < length out + length s
    → length (group_from (b ∷ []) s out) ≡ length out + length s + (length out + length s - 1) / 3
length-group_from_any b s [] h k l = omega (arith, length-group_from-nil b s h (omega arith))
length-group_from_any b s (c ∷ out) h k l = omega (arith, length-group_from b s c out h)

-- n digits get (n - 1) / 3 separators, rounded down.
pub length-group_digits :
    (b : ℕ) (s : Bytes) → length (group_digits s (b ∷ [])) ≡ length s + (length s - 1) / 3
unfolding group_digits
length-group_digits b s = elim (Bool-cases (ltb 3 (length s))) [
  | inl long ↦ rw long (
      ground (
        arith,
        length-group_from_any b (drop (length s % 3) s) (take (length s % 3) s) (IsTriple-drop s),
        length-take (length s % 3) s,
        length-drop (length s % 3) s,
      ))
  | inr short ↦ rw short (ground arith)
]

-- Grouping writes the separator behind exactly the digits that a positive multiple of three digits
-- follows. If the separator is one byte that the number does not hold, taking it out gives the
-- number back, and a number of n digits gets (n - 1) / 3 separators, rounded down.
pub group_digits_lem :
    (b : ℕ) (sep s : Bytes)
    → Lacks b s
    → (group_digits s sep ≡ spaced sep s)
      × ((erase b (group_digits s (b ∷ [])) ≡ s)
          × (length (group_digits s (b ∷ [])) ≡ length s + (length s - 1) / 3))
group_digits_lem b sep s h =
    (group_digits-spaced sep s, (erase-group_digits b s h, length-group_digits b s))
