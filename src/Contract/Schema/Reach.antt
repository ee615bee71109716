-- ===== src/Contract/Schema/Reach.antt =====
-- The schemas that allOf reaches, for collectProps of schema.go.
use ynab_go.Base.{
  ℕ, zero, suc, ◌≡◌, ◌↔◌, refl, sym, subst, true, Bool-cases, inl, inr, Option, none, some, List,
  [], ◌∷◌, All, arith, Bytes,
}
use ynab_go.Contract.Schema.{
  SchemaRef, Schema, Schemas, Walk, Step, walked, is_seen, add_props, over_branches, collect_props,
}
use ynab_go.Contract.Schema.Termination.{IsSameSeen, props-seen}
use ynab_go.Contract.Schema.Closing.{
  HasBranch, IsClosedAt, closed-branch, seen_cons, and_then-walked, collect-IsClosing, walked_inj,
}

-- The schemas that p composes, itself included.
pub data Reaches (heap : ℕ → Schema) (p : ℕ) : ℕ → Type 0 where
  itself : Reaches heap p p
  onward : {q t : ℕ} → Reaches heap p q → HasBranch t (heap q).all_of → Reaches heap p t

module _ (heap : ℕ → Schema) (name : Bytes) where
  module _ (origin : ℕ) where
    -- Everything that is seen can be reached.
    abbrev IsReached : List ℕ → Type 0
    IsReached seen = (q : ℕ) → is_seen seen q ≡ true → Reaches heap origin q

    abbrev IsReachedPointer : Option ℕ → Type 0
    IsReachedPointer none = Unit
    IsReachedPointer (some p) = Reaches heap origin p

    branch_pointers :
        (q : ℕ) (branches : List SchemaRef)
        → ((t : ℕ) → HasBranch t branches → Reaches heap origin t)
        → All (λ r. IsReachedPointer r.value) branches
    branch_pointers q [] h = tt
    branch_pointers q (r ∷ branches) h = (
      pointer r.value (λ t. λ e. h t (inl e)),
      branch_pointers q branches (λ t. λ b. h t (inr b)),
    )
      where
        pointer :
            (s : Option ℕ) → ((t : ℕ) → s ≡ some t → Reaches heap origin t) → IsReachedPointer s
        pointer none k = tt
        pointer (some t) k = k t refl

    branches-IsReached :
        (visit : Option ℕ → Walk → Step)
        → ((s : Option ℕ) (w u : Walk)
            → IsReachedPointer s
            → IsReached w.seen
            → visit s w ≡ walked u
            → IsReached u.seen)
        → (branches : List SchemaRef) (w u : Walk) → All (λ r. IsReachedPointer r.value) branches
        → IsReached w.seen
        → over_branches heap name visit branches w ≡ walked u
        → IsReached u.seen
    unfolding over_branches
    branches-IsReached visit each [] w u ok seen h =
        subst (λ x. IsReached x.seen) (walked_inj w u h) seen
    branches-IsReached visit each (r ∷ branches) w u ok seen h =
        let (v, (e, onwards)) =
          and_then-walked (visit r.value w) (over_branches heap name visit branches) u h in
        branches-IsReached visit each branches v u ok.1 (each r.value w v ok.0 seen e) onwards

    collect-IsReached :
        (fuel : ℕ) (s : Option ℕ) (w u : Walk)
        → IsReachedPointer s
        → IsReached w.seen
        → collect_props heap name fuel s w ≡ walked u
        → IsReached u.seen
    unfolding collect_props
    collect-IsReached zero s w u ok seen h = absurd (ground (arith, h))
    collect-IsReached (suc fuel) none w u ok seen h =
        subst (λ x. IsReached x.seen) (walked_inj w u h) seen
    collect-IsReached (suc fuel) (some p) w u ok seen h = elim (Bool-cases (is_seen w.seen p)) [
      | inl old ↦ let e : w ≡ u = ground (arith, old, h) in subst (λ x. IsReached x.seen) e seen
      | inr fresh ↦
          let start : Walk = record w { seen = p ∷ w.seen } in
          let (v, (e, onwards)) =
            and_then-walked (add_props heap name (heap p).properties start)
              (over_branches heap name (collect_props heap name fuel) (heap p).all_of) u
              (ground (arith, fresh, h)) in
          let same : v.seen ≡ p ∷ w.seen =
            subst (IsSameSeen heap name (p ∷ w.seen)) e
              (props-seen heap name (heap p).properties (p ∷ w.seen) start refl) in
          let now : IsReached (p ∷ w.seen) = λ q. λ k. elim (seen_cons p q w.seen k) [
            | inl e' ↦ subst (λ x. Reaches heap origin x) (sym e') ok
            | inr before ↦ seen q before
          ] in
          branches-IsReached (collect_props heap name fuel)
            (λ s'. λ w'. λ u'. collect-IsReached fuel s' w' u') (heap p).all_of v u
            (branch_pointers p (heap p).all_of (λ t. λ b. onward ok b))
            (subst IsReached (sym same) now) onwards
    ]

    reached-seen :
        (u : Walk)
        → is_seen u.seen origin ≡ true
        → ((q : ℕ) → is_seen u.seen q ≡ true → IsClosedAt u.seen (heap q).all_of)
        → (t : ℕ) → Reaches heap origin t
        → is_seen u.seen t ≡ true
    reached-seen u here closed t itself = here
    reached-seen u here closed t (onward {q} r b) =
        closed-branch u.seen t (heap q).all_of (closed q (reached-seen u here closed q r)) b

    -- A walk that starts at a schema with nothing seen, and ends, has visited exactly the schemas
    -- that allOf reaches from there, whatever cycles and diamonds it forms.
    pub collect_props-Reaches :
        (fuel : ℕ) (out : Schemas) (u : Walk) (q : ℕ)
        → collect_props heap name fuel (some origin) (record { seen = []; out = out }) ≡ walked u
        → (is_seen u.seen q ≡ true) ↔ Reaches heap origin q
    unfolding is_seen
    collect_props-Reaches fuel out u q h =
        let start : Walk = record { seen = []; out = out } in
        let inv = collect-IsClosing heap name fuel (some origin) start u h in
        (
          collect-IsReached fuel (some origin) start u itself (λ x. λ k. absurd (ground arith)) h q,
          reached-seen u inv.1
              (λ x. λ k. elim (inv.0.1 x k) [
                | inl nowhere ↦ absurd (ground arith)
                | inr closed ↦ closed
              ])
              q,
        )
