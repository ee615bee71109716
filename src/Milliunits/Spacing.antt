-- ===== src/Milliunits/Spacing.antt =====
-- groupDigits: where the separators go.
use ynab_go.Base.{
  ℕ, zero, suc, ◌+◌, ◌%◌, ◌<◌, ◌≤◌, ◌≡◌, refl, sym, ap, ◌∙◌, [], ◌∷◌, ◌++◌, false, not, ◌&&◌,
  append_assoc, append-nil, arith, length, take, drop, take-append-drop, Bytes, ◌==◌, ltb, is_nil,
  if◌then◌else◌, Bool-cases, inl, inr,
}
use ynab_go.Milliunits.{group_from, group_digits}

abbrev pub IsTriple : Bytes → Type 0
IsTriple s = length s % 3 ≡ 0

pub length-drop : (n : ℕ) (s : Bytes) → n ≤ length s → length (drop n s) + n ≡ length s
length-drop zero s h = omega arith
length-drop (suc n) [] h = omega arith
length-drop (suc n) (x ∷ s) h = omega (arith, length-drop n s)

pub IsTriple-drop : (s : Bytes) → IsTriple (drop (length s % 3) s)
IsTriple-drop s = omega (arith, length-drop (length s % 3) s)

pub length-take : (n : ℕ) (s : Bytes) → n ≤ length s → length (take n s) ≡ n
length-take zero s h = refl
length-take (suc n) [] h = absurd (omega arith)
length-take (suc n) (x ∷ s) h = ap suc (length-take n s (omega arith))

-- A separator behind each byte that a positive multiple of three bytes follows.
abbrev pub spaced : Bytes → Bytes → Bytes
spaced sep [] = []
spaced sep (c ∷ s) =
    c ∷ (if not (is_nil s) && length s % 3 == 0 then sep ++ spaced sep s else spaced sep s)

-- What the loop writes behind something that is written.
abbrev behind : Bytes → Bytes → Bytes
behind sep s = if is_nil s then [] else sep ++ spaced sep s

spaced_triple :
    (sep : Bytes) (x y z : ℕ) (s : Bytes)
    → IsTriple s
    → spaced sep (x ∷ y ∷ z ∷ s) ≡ x ∷ y ∷ z ∷ behind sep s
spaced_triple sep x y z [] h = refl
spaced_triple sep x y z (c ∷ s) h = ground (arith, h)

spaced_one : (sep : Bytes) (a : ℕ) (s : Bytes) → IsTriple s → spaced sep (a ∷ s) ≡ a ∷ behind sep s
spaced_one sep a [] h = refl
spaced_one sep a (c ∷ s) h = ground (arith, h)

spaced_two :
    (sep : Bytes) (a b : ℕ) (s : Bytes) → IsTriple s → spaced sep (a ∷ b ∷ s) ≡ a ∷ b ∷ behind sep s
spaced_two sep a b [] h = refl
spaced_two sep a b (c ∷ s) h = ground (arith, h)

group_from-behind :
    (sep s : Bytes) (c : ℕ) (out : Bytes)
    → IsTriple s
    → group_from sep s (c ∷ out) ≡ (c ∷ out) ++ behind sep s
unfolding group_from
group_from-behind sep [] c out h = rw append-nil refl
group_from-behind sep (x ∷ []) c out h = absurd (omega arith)
group_from-behind sep (x ∷ y ∷ []) c out h = absurd (omega arith)
group_from-behind sep (x ∷ y ∷ z ∷ s) c out h =
    group_from-behind sep s c ((out ++ sep) ++ x ∷ y ∷ z ∷ []) (omega arith)
    ∙ rw (spaced_triple sep x y z s (omega arith), append_assoc, append_assoc) refl

group_from-spaced :
    (sep lead s : Bytes)
    → IsTriple s
    → length lead < 3
    → group_from sep s lead ≡ spaced sep (lead ++ s)
unfolding group_from
group_from-spaced sep [] [] h k = refl
group_from-spaced sep [] (x ∷ []) h k = absurd (omega arith)
group_from-spaced sep [] (x ∷ y ∷ []) h k = absurd (omega arith)
group_from-spaced sep [] (x ∷ y ∷ z ∷ s) h k =
    group_from-behind sep s x (y ∷ z ∷ []) (omega arith)
    ∙ sym (spaced_triple sep x y z s (omega arith))
group_from-spaced sep (a ∷ []) s h k = group_from-behind sep s a [] h ∙ sym (spaced_one sep a s h)
group_from-spaced sep (a ∷ b ∷ []) s h k =
    group_from-behind sep s a (b ∷ []) h ∙ sym (spaced_two sep a b s h)
group_from-spaced sep (a ∷ b ∷ c ∷ lead) s h k = absurd (omega arith)

spaced_short : (sep s : Bytes) → ltb 3 (length s) ≡ false → spaced sep s ≡ s
spaced_short sep [] h = refl
spaced_short sep (x ∷ []) h = refl
spaced_short sep (x ∷ y ∷ []) h = refl
spaced_short sep (x ∷ y ∷ z ∷ []) h = refl
spaced_short sep (x ∷ y ∷ z ∷ w ∷ s) h = absurd (ground (arith, h))

spaced-nil : (s : Bytes) → spaced [] s ≡ s
spaced-nil [] = refl
spaced-nil (c ∷ s) = ground (arith, spaced-nil s)

pub group_digits-spaced : (sep s : Bytes) → group_digits s sep ≡ spaced sep s
unfolding group_digits
group_digits-spaced [] s = sym (spaced-nil s)
group_digits-spaced (b ∷ sep) s = elim (Bool-cases (ltb 3 (length s))) [
  | inl long ↦ rw long (
      group_from-spaced (b ∷ sep) (take lead s) (drop lead s) (IsTriple-drop s)
        (omega (arith, length-take lead s))
      ∙ ap (spaced (b ∷ sep)) (take-append-drop lead s))
  | inr short ↦ rw short (sym (spaced_short (b ∷ sep) s short))
]
  where
    lead : ℕ
    lead = length s % 3
