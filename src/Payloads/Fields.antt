-- ===== src/Payloads/Fields.antt =====
-- Which fields of a payload reach the wire, and as what.
use ynab_go.Base.{
  ◌≡◌, ◌∙◌, subst, refl, Bool, true, not, ◌&&◌, Bool-cases, inl, inr, Option, none, some, List, [],
  ◌∷◌, arith, Bytes, codes, bytes_eq, bytes_eq_iff,
}
use ynab_go.Std.Maps.{lookup}
use ynab_go.Std.Strconv.{format_int}
use ynab_go.Optional.{Optional, unset, set_null, set, is_zero, marshal}
use ynab_go.Date.{marshal_day}
use ynab_go.Contract.Params.{IsIn, contains_iff}
use ynab_go.Contract.{contains}
use ynab_go.Contract.Index.{IsDistinct}
use ynab_go.Payloads.{
  Entries, present, optional, nonempty, encode_bool, TransactionUpdate, update_entries,
}

-- The keys of a struct.
abbrev pub keys : Entries → List Bytes
keys [] = []
keys (e ∷ es) = e.0 ∷ keys es

abbrev flat : Option (Option Bytes) → Option Bytes
flat none = none
flat (some o) = o

-- A test for distinct texts.
abbrev pub all_distinct : List Bytes → Bool
all_distinct [] = true
all_distinct (k ∷ ks) = not (contains ks k) && all_distinct ks

pub all_distinct-IsDistinct : (ks : List Bytes) → all_distinct ks ≡ true → IsDistinct ks
all_distinct-IsDistinct [] h = tt
all_distinct-IsDistinct (k ∷ ks) h = (
  λ i. let c = (contains_iff ks k).1 i in absurd (ground (arith, c, h)),
  all_distinct-IsDistinct ks (ground (arith, h)),
)

present-missing : (k : Bytes) (es : Entries) → ¬ IsIn k (keys es) → lookup k (present es) ≡ none
unfolding present lookup
present-missing k [] h = refl
present-missing k ((j, none) ∷ es) h = present-missing k es (λ i. h (inr i))
present-missing k ((j, some raw) ∷ es) h = elim (Bool-cases (bytes_eq k j)) [
  | inl hit ↦ absurd (h (inl ((bytes_eq_iff k j).0 hit)))
  | inr miss ↦ rw miss (present-missing k es (λ i. h (inr i)))
]

-- A key of the object has its field's value, and is missing where the field is left out.
pub lookup-present :
    (k : Bytes) (es : Entries) → IsDistinct (keys es) → lookup k (present es) ≡ flat (lookup k es)
unfolding present lookup
lookup-present k [] d = refl
lookup-present k ((j, none) ∷ es) d = elim (Bool-cases (bytes_eq k j)) [
  | inl hit ↦
      let e = (bytes_eq_iff k j).0 hit in
      rw hit (present-missing k es (λ i. d.0 (subst (λ x. IsIn x (keys es)) e i)))
  | inr miss ↦ rw miss (lookup-present k es d.1)
]
lookup-present k ((j, some raw) ∷ es) d = elim (Bool-cases (bytes_eq k j)) [
  | inl hit ↦ rw hit refl
  | inr miss ↦ rw miss (lookup-present k es d.1)
]

-- The three states of a write field on the wire: no key, null, or the value.
abbrev pub wire_state : {T : Type 0} → (T → Bytes) → Optional T → Option Bytes
wire_state encode unset = none
wire_state encode set_null = some (codes "null")
wire_state encode (set v) = some (encode v)

optional-wire :
    {T : Type 0} (encode : T → Bytes) (o : Optional T) → optional encode o ≡ wire_state encode o
unfolding optional is_zero marshal
optional-wire encode unset = refl
optional-wire encode set_null = refl
optional-wire encode (set v) = refl

-- The names of the update's fields.
abbrev pub update_keys : List Bytes
update_keys =
    codes "account_id"
    ∷ codes "date"
    ∷ codes "amount"
    ∷ codes "payee_id"
    ∷ codes "payee_name"
    ∷ codes "category_id"
    ∷ codes "memo"
    ∷ codes "cleared"
    ∷ codes "approved"
    ∷ codes "flag_color"
    ∷ []

module _ (quote : Bytes → Bytes) where
  update_entries-IsDistinct : (u : TransactionUpdate) → IsDistinct (keys (update_entries quote u))
  unfolding update_entries
  update_entries-IsDistinct u =
      all_distinct-IsDistinct (keys (update_entries quote u)) (unfold contains bytes_eq in refl)

  update_at :
      (u : TransactionUpdate) (k : Bytes)
      → lookup k (present (update_entries quote u)) ≡ flat (lookup k (update_entries quote u))
  update_at u k = lookup-present k (update_entries quote u) (update_entries-IsDistinct u)

  -- In the JSON object of an update each Optional field is missing where it is unset, null where it
  -- is set to null, and its encoded value where it is set; cleared is there where it is not empty.
  pub update_entries_lem :
      (u : TransactionUpdate)
      → let wire = λ (k : Bytes). lookup k (present (update_entries quote u)) in
        (wire (codes "account_id") ≡ wire_state quote u.account_id)
        × ((wire (codes "date") ≡ wire_state marshal_day u.date)
            × ((wire (codes "amount") ≡ wire_state format_int u.amount)
                × ((wire (codes "payee_id") ≡ wire_state quote u.payee_id)
                    × ((wire (codes "payee_name") ≡ wire_state quote u.payee_name)
                        × ((wire (codes "category_id") ≡ wire_state quote u.category_id)
                            × ((wire (codes "memo") ≡ wire_state quote u.memo)
                                × ((wire (codes "cleared") ≡ nonempty quote u.cleared)
                                    × ((wire (codes "approved") ≡ wire_state encode_bool u.approved)
                                        × (wire (codes "flag_color")
                                            ≡ wire_state quote u.flag_color)))))))))
  unfolding update_entries lookup bytes_eq
  update_entries_lem u = (
    update_at u (codes "account_id") ∙ optional-wire quote u.account_id,
    (
      update_at u (codes "date") ∙ optional-wire marshal_day u.date,
      (
        update_at u (codes "amount") ∙ optional-wire format_int u.amount,
        (
          update_at u (codes "payee_id") ∙ optional-wire quote u.payee_id,
          (
            update_at u (codes "payee_name") ∙ optional-wire quote u.payee_name,
            (
              update_at u (codes "category_id") ∙ optional-wire quote u.category_id,
              (
                update_at u (codes "memo") ∙ optional-wire quote u.memo,
                (
                  update_at u (codes "cleared"),
                  (
                    update_at u (codes "approved") ∙ optional-wire encode_bool u.approved,
                    update_at u (codes "flag_color") ∙ optional-wire quote u.flag_color,
                  ),
                ),
              ),
            ),
          ),
        ),
      ),
    ),
  )
