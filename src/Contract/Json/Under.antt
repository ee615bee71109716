-- ===== src/Contract/Json/Under.antt =====
-- The members of an object and the key paths under them.
use ynab_go.Base.{
  ◌≡◌, ◌⊎◌, inl, inr, refl, sym, subst, true, Bool-cases, Option-cases, some, All, arith, Bytes,
  bytes_eq, bytes_eq_iff,
}
use ynab_go.Contract.Params.{IsIn, append_iff}
use ynab_go.Contract.Index.{IsDistinct}
use ynab_go.Contract.Json.{
  Json, null, boolean, number, text, array, object, Items, no_items, item, Members, no_members,
  member, key_paths, member_paths, child_path, member_keys, member_at, deep_equal, equal_members,
}

-- No object of the document has a key twice.
unfoldable mutual
  pub IsWell : Json → Type 0
  IsWell null = Unit
  IsWell (boolean b) = Unit
  IsWell (number n) = Unit
  IsWell (text s) = Unit
  IsWell (array xs) = IsWellItems xs
  IsWell (object ms) = IsDistinct (member_keys ms) × IsWellMembers ms

  pub IsWellItems : Items → Type 0
  IsWellItems no_items = Unit
  IsWellItems (item x xs) = IsWell x × IsWellItems xs

  pub IsWellMembers : Members → Type 0
  IsWellMembers no_members = Unit
  IsWellMembers (member k v ms) = IsWell v × IsWellMembers ms

-- A member and the paths under it.
abbrev pub IsUnder : Bytes → Bytes → Json → Bytes → Type 0
IsUnder p k v q = (q ≡ child_path p k) ⊎ IsIn q (key_paths v (child_path p k))

pub key_of :
    (k : Bytes) (w : Json) (ns : Members) → member_at k ns ≡ some w → IsIn k (member_keys ns)
unfolding member_at
key_of k w no_members h = absurd (ground arith)
key_of k w (member j v ns) h = elim (Bool-cases (bytes_eq k j)) [
  | inl hit ↦ inl ((bytes_eq_iff k j).0 hit)
  | inr miss ↦ inr (key_of k w ns (ground (arith, miss, h)))
]

pub IsWell-member_at :
    (k : Bytes) (w : Json) (ns : Members) → IsWellMembers ns → member_at k ns ≡ some w → IsWell w
unfolding member_at IsWell
IsWell-member_at k w no_members d h = absurd (ground arith)
IsWell-member_at k w (member j v ns) d h = elim (Bool-cases (bytes_eq k j)) [
  | inl hit ↦ let e : v ≡ w = ground (arith, hit, h) in subst IsWell e d.0
  | inr miss ↦ IsWell-member_at k w ns d.1 (ground (arith, miss, h))
]

pub IsUnder-head :
    (p k : Bytes) (v : Json) (ms : Members) (q : Bytes)
    → IsUnder p k v q
    → IsIn q (member_paths (member k v ms) p)
unfolding key_paths
IsUnder-head p k v ms q (inl e) = inl e
IsUnder-head p k v ms q (inr i) =
    inr ((append_iff q (key_paths v (child_path p k)) (member_paths ms p)).1 (inl i))

pub IsUnder-tail :
    (p k : Bytes) (v : Json) (ms : Members) (q : Bytes)
    → IsIn q (member_paths ms p)
    → IsIn q (member_paths (member k v ms) p)
unfolding key_paths
IsUnder-tail p k v ms q i =
    inr ((append_iff q (key_paths v (child_path p k)) (member_paths ms p)).1 (inr i))

pub IsUnder-cases :
    (p k : Bytes) (v : Json) (ms : Members) (q : Bytes)
    → IsIn q (member_paths (member k v ms) p)
    → IsUnder p k v q ⊎ IsIn q (member_paths ms p)
unfolding key_paths
IsUnder-cases p k v ms q (inl e) = inl (inl e)
IsUnder-cases p k v ms q (inr i) =
    elim ((append_iff q (key_paths v (child_path p k)) (member_paths ms p)).0 i) [
      | inl here ↦ inl (inr here)
      | inr later ↦ inr later
    ]

pub at_path :
    (ns : Members) (k : Bytes) (w : Json) (p q : Bytes)
    → member_at k ns ≡ some w
    → IsUnder p k w q
    → IsIn q (member_paths ns p)
unfolding member_at
at_path no_members k w p q h u = absurd (ground arith)
at_path (member j v ns) k w p q h u = elim (Bool-cases (bytes_eq k j)) [
  | inl hit ↦
      let e : v ≡ w = ground (arith, hit, h) in
      let same = (bytes_eq_iff k j).0 hit in
      IsUnder-head p j v ns q
        (subst (λ x. IsUnder p j x q) (sym e) (subst (λ x. IsUnder p x w q) same u))
  | inr miss ↦ IsUnder-tail p j v ns q (at_path ns k w p q (ground (arith, miss, h)) u)
]

pub member_missed :
    (ns : Members) (k j : Bytes) (v w : Json)
    → ¬ IsIn j (member_keys ns)
    → member_at k ns ≡ some w
    → member_at k (member j v ns) ≡ some w
unfolding member_at
member_missed ns k j v w fresh h = elim (Bool-cases (bytes_eq k j)) [
  | inl hit ↦
      absurd
        (fresh (subst (λ x. IsIn x (member_keys ns)) ((bytes_eq_iff k j).0 hit) (key_of k w ns h)))
  | inr miss ↦ rw miss h
]

pub member_here : (ns : Members) (j : Bytes) (v : Json) → member_at j (member j v ns) ≡ some v
unfolding member_at
member_here ns j v = let e = (bytes_eq_iff j j).1 refl in rw e refl

-- A path under an object belongs to the member that its key finds.
pub member_of_path :
    (ns : Members) (p q : Bytes)
    → IsDistinct (member_keys ns)
    → IsIn q (member_paths ns p)
    → (k : Bytes) × ((w : Json) × ((member_at k ns ≡ some w) × IsUnder p k w q))
unfolding key_paths
member_of_path no_members p q d h = absurd h
member_of_path (member j v ns) p q d h = elim (IsUnder-cases p j v ns q h) [
  | inl here ↦ (j, (v, (member_here ns j v, here)))
  | inr later ↦
      let (k, (w, (found, u))) = member_of_path ns p q d.1 later in
      (k, (w, (member_missed ns k j v w d.0 found, u)))
]

pub keys_within :
    (ms ns : Members)
    → equal_members ms ns ≡ true
    → All (λ k. IsIn k (member_keys ns)) (member_keys ms)
unfolding deep_equal
keys_within no_members ns e = tt
keys_within (member k v ms) ns e = elim (Option-cases (member_at k ns)) [
  | inl lacking ↦ absurd (ground (arith, lacking, e))
  | inr (w, found) ↦ (key_of k w ns found, keys_within ms ns (ground (arith, found, e)))
]
