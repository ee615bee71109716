-- ===== src/Contract/Schema/Closing.antt =====
-- What collectProps of schema.go has visited, followed along the branches of allOf.
use ynab_go.Base.{
  ℕ, zero, suc, ◌≡◌, ◌⊎◌, refl, sym, subst, true, Bool-cases, inl, inr, Option, none, some, List,
  [], ◌∷◌, All, arith, Bytes,
}
use ynab_go.Contract.Schema.{
  SchemaRef, Schema, Walk, Step, walked, enum_error, out_of_fuel, and_then, is_seen, add_props,
  over_branches, collect_props,
}
use ynab_go.Contract.Schema.Termination.{IsSameSeen, props-seen}

-- A branch that points to t.
abbrev pub HasBranch : ℕ → List SchemaRef → Type 0
HasBranch t [] = ⊥
HasBranch t (r ∷ branches) = (r.value ≡ some t) ⊎ HasBranch t branches

-- A pointer that is nil or visited.
abbrev pub IsVisited : List ℕ → Option ℕ → Type 0
IsVisited seen none = Unit
IsVisited seen (some p) = is_seen seen p ≡ true

-- What is seen stays seen.
abbrev pub IsKept : List ℕ → List ℕ → Type 0
IsKept before now = (q : ℕ) → is_seen before q ≡ true → is_seen now q ≡ true

-- Every branch is visited.
abbrev pub IsClosedAt : List ℕ → List SchemaRef → Type 0
IsClosedAt seen = All (λ r. IsVisited seen r.value)

IsVisited-kept : (a b : List ℕ) (s : Option ℕ) → IsKept a b → IsVisited a s → IsVisited b s
IsVisited-kept a b none k h = tt
IsVisited-kept a b (some p) k h = k p h

IsClosedAt-kept :
    (a b : List ℕ) (rs : List SchemaRef) → IsKept a b → IsClosedAt a rs → IsClosedAt b rs
IsClosedAt-kept a b [] k h = tt
IsClosedAt-kept a b (r ∷ rs) k h = (IsVisited-kept a b r.value k h.0, IsClosedAt-kept a b rs k h.1)

pub closed-branch :
    (seen : List ℕ) (t : ℕ) (rs : List SchemaRef)
    → IsClosedAt seen rs
    → HasBranch t rs
    → is_seen seen t ≡ true
closed-branch seen t [] h b = absurd b
closed-branch seen t (r ∷ rs) h (inl e) = subst (IsVisited seen) e h.0
closed-branch seen t (r ∷ rs) h (inr later) = closed-branch seen t rs h.1 later

seen_here : (p : ℕ) (seen : List ℕ) → is_seen (p ∷ seen) p ≡ true
unfolding is_seen
seen_here p seen = ground arith

seen_later : (p : ℕ) (seen : List ℕ) → IsKept seen (p ∷ seen)
unfolding is_seen
seen_later p seen q h = ground (arith, h)

pub seen_cons :
    (p q : ℕ) (seen : List ℕ) → is_seen (p ∷ seen) q ≡ true → (q ≡ p) ⊎ (is_seen seen q ≡ true)
unfolding is_seen
seen_cons p q seen h = ground (arith, h)

pub and_then-walked :
    (st : Step) (next : Walk → Step) (u : Walk)
    → and_then st next ≡ walked u
    → (v : Walk) × ((st ≡ walked v) × (next v ≡ walked u))
and_then-walked (walked v) next u h = (v, (refl, h))
and_then-walked (enum_error owner prop m) next u h = absurd (ground arith)
and_then-walked out_of_fuel next u h = absurd (ground arith)

pub walked_inj : (w u : Walk) → walked w ≡ walked u → w ≡ u
walked_inj w u h = cc h

module _ (heap : ℕ → Schema) (name : Bytes) where
  -- After a step from `seen`: nothing is lost, and what is new has all its branches visited.
  abbrev pub IsClosing : List ℕ → List ℕ → Type 0
  IsClosing seen now =
      IsKept seen now
      × ((q : ℕ) → is_seen now q ≡ true → (is_seen seen q ≡ true) ⊎ IsClosedAt now (heap q).all_of)

  IsClosing-refl : (seen : List ℕ) → IsClosing seen seen
  IsClosing-refl seen = ((λ q. λ h. h), (λ q. λ h. inl h))

  IsClosing-trans : (a b c : List ℕ) → IsClosing a b → IsClosing b c → IsClosing a c
  IsClosing-trans a b c f g = (
    λ q. λ h. g.0 q (f.0 q h),
    λ q. λ h. elim (g.1 q h) [
      | inl before ↦ elim (f.1 q before) [
        | inl old ↦ inl old
        | inr closed ↦ inr (IsClosedAt-kept b c (heap q).all_of g.0 closed)
      ]
      | inr closed ↦ inr closed
    ],
  )

  abbrev pub IsVisit : (Option ℕ → Walk → Step) → Type 0
  IsVisit visit =
      (s : Option ℕ) (w u : Walk)
      → visit s w ≡ walked u
      → IsClosing w.seen u.seen × IsVisited u.seen s

  branches-IsClosing :
      (visit : Option ℕ → Walk → Step)
      → IsVisit visit
      → (branches : List SchemaRef) (w u : Walk)
      → over_branches heap name visit branches w ≡ walked u
      → IsClosing w.seen u.seen × IsClosedAt u.seen branches
  unfolding over_branches
  branches-IsClosing visit each [] w u h =
      let e : w ≡ u = cc h in (subst (λ x. IsClosing w.seen x.seen) e (IsClosing-refl w.seen), tt)
  branches-IsClosing visit each (r ∷ branches) w u h =
      let (v, (e, onwards)) =
        and_then-walked (visit r.value w) (over_branches heap name visit branches) u h in
      let first = each r.value w v e in
      let rest = branches-IsClosing visit each branches v u onwards in
      (
        IsClosing-trans w.seen v.seen u.seen first.0 rest.0,
        (IsVisited-kept v.seen u.seen r.value rest.0.0 first.1, rest.1),
      )

  pub collect-IsClosing : (fuel : ℕ) → IsVisit (collect_props heap name fuel)
  unfolding collect_props
  collect-IsClosing zero s w u h = absurd (ground (arith, h))
  collect-IsClosing (suc fuel) none w u h =
      let e : w ≡ u = cc h in (subst (λ x. IsClosing w.seen x.seen) e (IsClosing-refl w.seen), tt)
  collect-IsClosing (suc fuel) (some p) w u h = elim (Bool-cases (is_seen w.seen p)) [
    | inl seen ↦
        let e : w ≡ u = ground (arith, seen, h) in
        subst (λ x. IsClosing w.seen x.seen × (is_seen x.seen p ≡ true)) e
          (IsClosing-refl w.seen, seen)
    | inr fresh ↦
        let start : Walk = record w { seen = p ∷ w.seen } in
        let (v, (e, onwards)) =
          and_then-walked (add_props heap name (heap p).properties start)
            (over_branches heap name (collect_props heap name fuel) (heap p).all_of) u
            (ground (arith, fresh, h)) in
        let same : v.seen ≡ p ∷ w.seen =
          subst (IsSameSeen heap name (p ∷ w.seen)) e
            (props-seen heap name (heap p).properties (p ∷ w.seen) start refl) in
        let rest =
          branches-IsClosing (collect_props heap name fuel) (collect-IsClosing fuel) (heap p).all_of
            v u onwards in
        let grown : IsClosing (p ∷ w.seen) u.seen = subst (λ l. IsClosing l u.seen) same rest.0 in
        let here : is_seen u.seen p ≡ true = grown.0 p (seen_here p w.seen) in
        (
          (
            λ q. λ k. grown.0 q (seen_later p w.seen q k),
            λ q. λ k. elim (grown.1 q k) [
              | inl before ↦ elim (seen_cons p q w.seen before) [
                | inl e' ↦ inr (subst (λ x. IsClosedAt u.seen (heap x).all_of) (sym e') rest.1)
                | inr old ↦ inl old
              ]
              | inr closed ↦ inr closed
            ],
          ),
          here,
        )
  ]
