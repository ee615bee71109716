-- ===== src/TestServer/Names.antt =====
-- internal/ynabtest/server.go: FixtureNames.
use ynab_go.Base.{
  ◌≡◌, ◌↔◌, ◌⊎◌, inl, inr, refl, sym, ap, ◌∙◌, subst, true, false, not, ◌&&◌, Bool-cases, List, [],
  ◌∷◌, ◌++◌, arith, Bytes, is_nil, if◌then◌else◌,
}
use ynab_go.Contract.{contains}
use ynab_go.Contract.Params.{IsIn, append_iff, contains_iff}
use ynab_go.Contract.Index.{IsDistinct}
use ynab_go.TestServer.{Route, fixtures_of, add_names, fixture_names}

-- The fixtures of routes, in their order.
abbrev pub served_by : List Route → List Bytes
served_by [] = []
served_by (rt ∷ rts) = fixtures_of rt ++ served_by rts

IsDistinct-snoc :
    (xs : List Bytes) (p : Bytes) → IsDistinct xs → ¬ IsIn p xs → IsDistinct (xs ++ (p ∷ []))
IsDistinct-snoc [] p d fresh = (λ h. h, tt)
IsDistinct-snoc (x ∷ xs) p d fresh = (
  λ h. elim ((append_iff x xs (p ∷ [])).0 h) [
    | inl twice ↦ d.0 twice
    | inr last ↦ elim last [ inl e ↦ fresh (inl (sym e)) | inr nowhere ↦ nowhere ]
  ],
  IsDistinct-snoc xs p d.1 (λ h. fresh (inr h)),
)

-- A step of the loop: the name is added, or it is empty or there already.
add_cases :
    (names : List Bytes) (f : Bytes)
    → ((is_nil f ≡ false)
        × (¬ IsIn f names)
        × ((if not (is_nil f) && not (contains names f) then names ++ (f ∷ []) else names)
            ≡ names ++ (f ∷ [])))
      ⊎ (((is_nil f ≡ true) ⊎ IsIn f names)
          × ((if not (is_nil f) && not (contains names f) then names ++ (f ∷ []) else names)
              ≡ names))
add_cases names f =
    let there = contains_iff names f in
    elim (Bool-cases (is_nil f)) [
      | inl empty ↦ inr (inl empty, rw empty refl)
      | inr full ↦ elim (Bool-cases (contains names f)) [
        | inl hit ↦ inr (inr (there.0 hit), rw (full, hit) refl)
        | inr miss ↦ inl (
          full,
          (λ h. let e = there.1 h in absurd (ground (arith, e, miss))),
          rw (full, miss) refl,
        )
      ]
    ]

-- A name to list: it is not empty.
abbrev IsNameIn : Bytes → List Bytes → Type 0
IsNameIn p fs = IsIn p fs × (is_nil p ≡ false)

abbrev IsListed : Bytes → List Bytes → List Bytes → List Bytes → Type 0
IsListed p result names fs = IsIn p result ↔ (IsIn p names ⊎ IsNameIn p fs)

-- The two ways of a step, with what is listed behind it.
IsListed-new :
    (p f : Bytes) (result names fs : List Bytes)
    → is_nil f ≡ false
    → IsListed p result (names ++ (f ∷ [])) fs
    → IsListed p result names (f ∷ fs)
IsListed-new p f result names fs full rest =
    let snoc = append_iff p names (f ∷ []) in
    (
      λ h. elim (rest.0 h) [
        | inl seen ↦ elim (snoc.0 seen) [
          | inl before ↦ inl before
          | inr now ↦ elim now [
            | inl e ↦ inr (inl e, subst (λ x. is_nil x ≡ false) (sym e) full)
            | inr nowhere ↦ absurd nowhere
          ]
        ]
        | inr later ↦ inr (inr later.0, later.1)
      ],
      λ h. elim h [
        | inl before ↦ rest.1 (inl (snoc.1 (inl before)))
        | inr (now, some_text) ↦ elim now [
          | inl e ↦ rest.1 (inl (snoc.1 (inr (inl e))))
          | inr later ↦ rest.1 (inr (later, some_text))
        ]
      ],
    )

IsListed-old :
    (p f : Bytes) (result names fs : List Bytes)
    → (is_nil f ≡ true) ⊎ IsIn f names
    → IsListed p result names fs
    → IsListed p result names (f ∷ fs)
IsListed-old p f result names fs known rest = (
  λ h. elim (rest.0 h) [ inl seen ↦ inl seen | inr later ↦ inr (inr later.0, later.1) ],
  λ h. elim h [
    | inl before ↦ rest.1 (inl before)
    | inr (now, some_text) ↦ elim now [
      | inl e ↦ elim known [
        | inl empty ↦ absurd (ground (arith, sym some_text ∙ (ap is_nil e ∙ empty)))
        | inr seen ↦ rest.1 (inl (subst (λ x. IsIn x names) (sym e) seen))
      ]
      | inr later ↦ rest.1 (inr (later, some_text))
    ]
  ],
)

add_names_iff : (p : Bytes) (names fs : List Bytes) → IsListed p (add_names names fs) names fs
unfolding add_names
add_names_iff p names [] =
    (λ h. inl h, λ h. elim h [ inl seen ↦ seen | inr later ↦ absurd later.0 ])
add_names_iff p names (f ∷ fs) = elim (add_cases names f) [
  | inl (full, fresh, e) ↦ IsListed-new p f (add_names names (f ∷ fs)) names fs full (
      subst (λ l. IsListed p (add_names l fs) (names ++ (f ∷ [])) fs) (sym e)
        (add_names_iff p (names ++ (f ∷ [])) fs))
  | inr (known, e) ↦
      IsListed-old p f (add_names names (f ∷ fs)) names fs known
        (subst (λ l. IsListed p (add_names l fs) names fs) (sym e) (add_names_iff p names fs))
]

add_names-IsDistinct : (names fs : List Bytes) → IsDistinct names → IsDistinct (add_names names fs)
unfolding add_names
add_names-IsDistinct names [] d = d
add_names-IsDistinct names (f ∷ fs) d = elim (add_cases names f) [
  | inl (full, fresh, e) ↦
      subst (λ l. IsDistinct (add_names l fs)) (sym e)
        (add_names-IsDistinct (names ++ (f ∷ [])) fs (IsDistinct-snoc names f d fresh))
  | inr (known, e) ↦
      subst (λ l. IsDistinct (add_names l fs)) (sym e) (add_names-IsDistinct names fs d)
]

IsListed-all :
    (p : Bytes) (names : List Bytes) (rts : List Route)
    → IsListed p (fixture_names names rts) names (served_by rts)
unfolding fixture_names
IsListed-all p names [] = (λ h. inl h, λ h. elim h [ inl seen ↦ seen | inr later ↦ absurd later.0 ])
IsListed-all p names (rt ∷ rts) =
    let rest = IsListed-all p (add_names names (fixtures_of rt)) rts in
    let here = add_names_iff p names (fixtures_of rt) in
    let split = append_iff p (fixtures_of rt) (served_by rts) in
    (
      λ h. elim (rest.0 h) [
        | inl seen ↦ elim (here.0 seen) [
          | inl before ↦ inl before
          | inr now ↦ inr (split.1 (inl now.0), now.1)
        ]
        | inr later ↦ inr (split.1 (inr later.0), later.1)
      ],
      λ h. elim h [
        | inl before ↦ rest.1 (inl (here.1 (inl before)))
        | inr (somewhere, full) ↦ elim (split.0 somewhere) [
          | inl now ↦ rest.1 (inl (here.1 (inr (now, full))))
          | inr later ↦ rest.1 (inr (later, full))
        ]
      ],
    )

IsDistinct-all :
    (names : List Bytes) (rts : List Route)
    → IsDistinct names
    → IsDistinct (fixture_names names rts)
unfolding fixture_names
IsDistinct-all names [] d = d
IsDistinct-all names (rt ∷ rts) d =
    IsDistinct-all (add_names names (fixtures_of rt)) rts
      (add_names-IsDistinct names (fixtures_of rt) d)

-- FixtureNames lists no name twice, and a name stands in it exactly if it is the fixture or the
-- delta fixture of some route and is not empty.
pub fixture_names_lem :
    (rts : List Route)
    → IsDistinct (fixture_names [] rts)
      × ((p : Bytes)
          → IsIn p (fixture_names [] rts) ↔ (IsIn p (served_by rts) × (is_nil p ≡ false)))
fixture_names_lem rts = (
  IsDistinct-all [] rts tt,
  λ p.
      let both = IsListed-all p [] rts in
      (
        λ h. elim (both.0 h) [ inl nowhere ↦ absurd nowhere | inr found ↦ found ],
        λ h. both.1 (inr h),
      ),
)
