-- ===== src/Errors/Taxonomy.antt =====
-- `Error.Is`: which sentinels an API error matches.
use ynab_go.Base.{
  ◌≡◌, ◌↔◌, ◌⊎◌, inl, inr, refl, Bool, true, false, ◌||◌, Option, none, some, arith, Bool-cases,
}
use ynab_go.Errors.{
  ApiError, Sentinel, Sentinel-discrete, sentinel_by_id, sentinel_by_status, same, matches, is,
}

same_iff : (s t : Sentinel) → (same s t ≡ true) ↔ (s ≡ t)
unfolding same
same_iff s t =
    elim (Sentinel-discrete s t)
      as (λ d. ((elim d [ yes e ↦ true | no e ↦ false ]) ≡ true) ↔ (s ≡ t)) [
        | yes e ↦ ((λ h. e), (λ h. refl))
        | no n ↦ ((λ h. cc), (λ h. absurd (n h)))
      ]

matches_iff : (o : Option Sentinel) (t : Sentinel) → (matches o t ≡ true) ↔ (o ≡ some t)
unfolding matches
matches_iff none t = ((λ h. cc), (λ h. cc))
matches_iff (some s) t = ground (arith, same_iff t s)

or_true : (b : Bool) → (b || true) ≡ true
or_true true = refl
or_true false = refl

-- An error matches a sentinel exactly if it is that of its sub-code or that of its status.
pub is_iff :
    (e : ApiError) (t : Sentinel)
    → (is e t ≡ true)
      ↔ ((sentinel_by_id e.id ≡ some t) ⊎ (sentinel_by_status e.status_code ≡ some t))
unfolding is
is_iff e t = (
  λ h. elim (Bool-cases (matches (sentinel_by_id e.id) t)) [
    | inl hit ↦ inl ((matches_iff _ t).0 hit)
    | inr miss ↦ inr ((matches_iff _ t).0 (rw miss at h))
  ],
  λ h. elim h [
    | inl p ↦ rw ((matches_iff _ t).1 p) refl
    | inr p ↦ rw ((matches_iff _ t).1 p) (or_true _)
  ],
)
