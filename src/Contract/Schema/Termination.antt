-- ===== src/Contract/Schema/Termination.antt =====
-- collectProps ends, also on a cyclic allOf: a call visits a pointer that was not seen, and there
-- are only so many.
use ynab_go.Base.{
  ℕ, zero, suc, ◌+◌, ◌≤◌, ◌<◌, ◌≡◌, ◌≢◌, refl, sym, ◌∙◌, subst, false, Bool-cases, Option-cases,
  inl, inr, Option, none, some, List, [], ◌∷◌, All, arith, Bytes, ◌==◌, if◌then◌else◌,
}
use ynab_go.Contract.Schema.{
  SchemaRef, Schema, Schemas, Walk, Step, walked, enum_error, out_of_fuel, and_then, is_seen,
  add_bound, add_enum, add_props, over_branches, collect_props,
}

-- How many pointers below n are not seen.
abbrev pub unseen : ℕ → List ℕ → ℕ
unseen zero seen = 0
unseen (suc k) seen = (if is_seen seen k then 0 else 1) + unseen k seen

-- A pointer is nil, or one of the n schemas.
abbrev pub IsPointer : ℕ → Option ℕ → Type 0
IsPointer n none = Unit
IsPointer n (some p) = p < n

unseen_bound : (n : ℕ) → unseen n [] ≤ n
unfolding is_seen
unseen_bound zero = omega arith
unseen_bound (suc n) = omega (arith, unseen_bound n)

unseen_cons : (n p : ℕ) (seen : List ℕ) → unseen n (p ∷ seen) ≤ unseen n seen
unfolding is_seen
unseen_cons zero p seen = omega arith
unseen_cons (suc n) p seen = ground (arith, unseen_cons n p seen)

-- A pointer below n that was not seen makes the number smaller.
unseen_less :
    (n p : ℕ) (seen : List ℕ) → p < n → is_seen seen p ≡ false → unseen n (p ∷ seen) < unseen n seen
unfolding is_seen
unseen_less zero p seen h fresh = absurd (omega (arith, h))
unseen_less (suc n) p seen h fresh = elim (Bool-cases (p == n)) [
  | inl last ↦
      let e : p ≡ n = ground (arith, last) in
      let new : is_seen seen n ≡ false = subst (λ x. is_seen seen x ≡ false) e fresh in
      ground (arith, e, new, unseen_cons n p seen)
  | inr before ↦ ground (arith, before, unseen_less n p seen (ground (arith, before, h)) fresh)
]

-- The step was not cut off, and sees no less than before.
abbrev pub IsDone : ℕ → List ℕ → Step → Type 0
IsDone n seen (walked w) = unseen n w.seen ≤ unseen n seen
IsDone n seen (enum_error name prop v) = Unit
IsDone n seen out_of_fuel = ⊥

module _ (heap : ℕ → Schema) (name : Bytes) where
  -- The properties do not change what is seen.
  abbrev pub IsSameSeen : List ℕ → Step → Type 0
  IsSameSeen seen (walked w) = w.seen ≡ seen
  IsSameSeen seen (enum_error owner prop v) = Unit
  IsSameSeen seen out_of_fuel = ⊥

  bound-seen : (prop : Bytes) (s : Schema) (w : Walk) → (add_bound heap name prop s w).seen ≡ w.seen
  unfolding add_bound
  bound-seen prop s w = ground arith

  enum-seen :
      (prop : Bytes) (r : SchemaRef) (s : Schema) (w : Walk)
      → IsSameSeen w.seen (add_enum heap name prop r s w)
  unfolding add_enum
  enum-seen prop r s w = ground arith

  and_then-seen :
      (seen : List ℕ) (st : Step) (next : Walk → Step)
      → IsSameSeen seen st
      → ((w : Walk) → w.seen ≡ seen → IsSameSeen seen (next w))
      → IsSameSeen seen (and_then st next)
  and_then-seen seen (walked w) next h k = k w h
  and_then-seen seen (enum_error owner prop v) next h k = tt
  and_then-seen seen out_of_fuel next h k = h

  pub props-seen :
      (props : List (Bytes × SchemaRef)) (seen : List ℕ) (w : Walk)
      → w.seen ≡ seen
      → IsSameSeen seen (add_props heap name props w)
  unfolding add_props
  props-seen [] seen w h = h
  props-seen ((prop, r) ∷ props) seen w h = elim (Option-cases r.value) [
    | inl nil ↦ rw nil (props-seen props seen w h)
    | inr (p, found) ↦
        let v = add_bound heap name prop (heap p) w in
        rw found (
          and_then-seen seen (add_enum heap name prop r (heap p) v) (add_props heap name props)
            (subst (λ x. IsSameSeen x (add_enum heap name prop r (heap p) v))
              (bound-seen prop (heap p) w ∙ h) (enum-seen prop r (heap p) v))
            (λ u. λ e. props-seen props seen u e))
  ]

  and_then-IsDone :
      (n : ℕ) (seen now : List ℕ) (st : Step) (next : Walk → Step)
      → IsSameSeen now st
      → ((w : Walk) → w.seen ≡ now → IsDone n seen (next w))
      → IsDone n seen (and_then st next)
  and_then-IsDone n seen now (walked w) next h k = k w h
  and_then-IsDone n seen now (enum_error owner prop v) next h k = tt
  and_then-IsDone n seen now out_of_fuel next h k = absurd h

  IsDone-chain :
      (n : ℕ) (seen : List ℕ) (st : Step) (next : Walk → Step)
      → IsDone n seen st
      → ((w : Walk) → unseen n w.seen ≤ unseen n seen → IsDone n seen (next w))
      → IsDone n seen (and_then st next)
  IsDone-chain n seen (walked w) next h k = k w h
  IsDone-chain n seen (enum_error owner prop v) next h k = tt
  IsDone-chain n seen out_of_fuel next h k = absurd h

  IsDone-weaken :
      (n : ℕ) (before now : List ℕ) (st : Step)
      → unseen n now ≤ unseen n before
      → IsDone n now st
      → IsDone n before st
  IsDone-weaken n before now (walked w) h d = omega (arith, h, d)
  IsDone-weaken n before now (enum_error owner prop v) h d = tt
  IsDone-weaken n before now out_of_fuel h d = d

  branches-IsDone :
      (n bound : ℕ) (visit : Option ℕ → Walk → Step)
      → ((s : Option ℕ) (w : Walk)
          → IsPointer n s
          → unseen n w.seen < bound
          → IsDone n w.seen (visit s w))
      → (branches : List SchemaRef) (w : Walk) → All (λ r. IsPointer n r.value) branches
      → unseen n w.seen < bound
      → IsDone n w.seen (over_branches heap name visit branches w)
  unfolding over_branches
  branches-IsDone n bound visit each [] w ok h = omega arith
  branches-IsDone n bound visit each (r ∷ branches) w ok h =
      IsDone-chain n w.seen (visit r.value w) (over_branches heap name visit branches)
        (each r.value w ok.0 h)
        (λ u. λ fewer.
          IsDone-weaken n w.seen u.seen (over_branches heap name visit branches u) fewer
            (branches-IsDone n bound visit each branches u ok.1 (omega (arith, fewer, h))))

  module _ (n : ℕ) (known : (p : ℕ) → p < n → All (λ r. IsPointer n r.value) (heap p).all_of) where
    collect-IsDone :
        (fuel : ℕ) (s : Option ℕ) (w : Walk)
        → IsPointer n s
        → unseen n w.seen < fuel
        → IsDone n w.seen (collect_props heap name fuel s w)
    unfolding collect_props
    collect-IsDone zero s w ok h = absurd (omega (arith, h))
    collect-IsDone (suc fuel) none w ok h = omega arith
    collect-IsDone (suc fuel) (some p) w ok h = elim (Bool-cases (is_seen w.seen p)) [
      | inl seen ↦ rw seen (omega arith)
      | inr fresh ↦
          let now = p ∷ w.seen in
          let start : Walk = record w { seen = now } in
          let less = unseen_less n p w.seen ok fresh in
          rw fresh (
            and_then-IsDone n w.seen now (add_props heap name (heap p).properties start)
              (over_branches heap name (collect_props heap name fuel) (heap p).all_of)
              (props-seen (heap p).properties now start refl)
              (λ u. λ e.
                let fewer : unseen n u.seen < unseen n w.seen =
                  subst (λ x. unseen n x < unseen n w.seen) (sym e) less in
                IsDone-weaken n w.seen u.seen
                  (over_branches heap name (collect_props heap name fuel) (heap p).all_of u)
                  (omega (arith, fewer))
                  (branches-IsDone n fuel (collect_props heap name fuel)
                    (λ s'. λ w'. collect-IsDone fuel s' w') (heap p).all_of u (known p ok)
                    (omega (arith, fewer, h)))))
    ]

    -- On n schemas whose branches point to these schemas or to nothing: from any of them, with
    -- nothing seen, n + 1 nested calls are enough for the walk, whatever cycles the branches form.
    pub collect_props_total :
        (s : Option ℕ) (out : Schemas)
        → IsPointer n s
        → collect_props heap name (suc n) s (record { seen = []; out = out }) ≢ out_of_fuel
    collect_props_total s out ok e =
        let d =
          collect-IsDone (suc n) s (record { seen = []; out = out }) ok
            (omega (arith, unseen_bound n)) in
        subst (IsDone n []) e d
