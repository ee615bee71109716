-- ===== src/Plan/Delta.antt =====
-- Delta over any number of reads: a cursor is only sent for the plan that it came from.
use ynab_go.Base.{
  ◌≡◌, ◌≢◌, ◌⊎◌, inl, inr, refl, ap, true, Bool-cases, Option-cases, Option, none, some, List, [],
  ◌∷◌, arith, All, Bytes, codes, bytes_eq, bytes_eq_iff, is_nil,
}
use ynab_go.Base.Int.{pos, eqb_ℤ}
use ynab_go.Errors.{WireError}
use ynab_go.Transport.{Environment}
use ynab_go.Transport.Path.{join_path}
use ynab_go.Client.{Client}
use ynab_go.Client.Call.{
  Result, success, argument_error, encode_error, attempt_error, canceled_error, api_error,
  decode_error, Envelope, nil_body,
}
use ynab_go.Client.Call.Guard.{is_collapsed-join_path}
use ynab_go.Client.Call.Endings.{call-success}
use ynab_go.Sync.{ServerKnowledge, ListOption, since, SyncState, apply_list_options}
use ynab_go.Plan.{Exported, delta_guard, delta_options, export, advance, delta}

-- A read of one plan, at some time.
pub record Visit (E : Type 0) : Type 0 where
  pub client : Client
  pub environment : Environment E
  pub id : Bytes

-- A sync state, with the plans and the cursors that its successful reads brought, latest first.
pub record Session : Type 0 where
  pub state : SyncState
  pub served : List (Bytes × ServerKnowledge)

-- The state before any read; the other cursors are not Delta's.
abbrev pub IsFresh : SyncState → Type 0
IsFresh st = (st.plan_id ≡ []) × (st.plan ≡ pos 0)

-- The state holds the id and the cursor of the latest successful read, and all of them read that
-- plan.
abbrev pub IsOwned : SyncState → List (Bytes × ServerKnowledge) → Type 0
IsOwned st [] = IsFresh st
IsOwned st ((i, k) ∷ earlier) =
    (i ≢ []) × ((st.plan_id ≡ i) × ((st.plan ≡ k) × All (λ e. e.0 ≡ i) earlier))

abbrev or_state : SyncState → Option SyncState → SyncState
or_state st none = st
or_state st (some s) = s

abbrev noted :
    Bytes → Option ServerKnowledge → List (Bytes × ServerKnowledge) → List (Bytes × ServerKnowledge)
noted i none log = log
noted i (some k) log = (i, k) ∷ log

guard-passed :
    (id : Bytes) (st : SyncState) → delta_guard id st ≡ none → st.plan_id ≢ [] → st.plan_id ≡ id
unfolding delta_guard
guard-passed id st h k = elim (Bool-cases (bytes_eq st.plan_id id)) [
  | inl same ↦ (bytes_eq_iff st.plan_id id).0 same
  | inr other ↦ absurd (filled st.plan_id k (ground arith))
]
  where
    filled : (s : Bytes) → s ≢ [] → is_nil s ≡ true → ⊥
    filled [] ne e = ne refl
    filled (c ∷ s) ne e = ground arith

-- A success at a plan whose guard passed.
served-IsOwned :
    (id : Bytes) (st : SyncState) (k : ServerKnowledge) (log : List (Bytes × ServerKnowledge))
    → delta_guard id st ≡ none
    → id ≢ []
    → IsOwned st log
    → IsOwned (record st { plan_id = id; plan = k }) ((id, k) ∷ log)
served-IsOwned id st k [] g ne h = (ne, (refl, (refl, tt)))
served-IsOwned id st k ((i, j) ∷ log) g ne h =
    let same : st.plan_id ≡ id = guard-passed id st g (ground arith) in
    let old : i ≡ id = ground arith in (ne, (refl, (refl, (old, rw old at h.1.1.1))))

module _ {E : Type 0} {D : Type 0} (wire : Bytes → Option WireError)
    (envelope : Bytes → Envelope (Exported D)) where
  -- The server knowledge that a result carries.
  abbrev knowledge : Result E (Exported D) → Option ServerKnowledge
  knowledge (success v) = some v.server_knowledge
  knowledge _ = none

  -- What the server answered to a read, if it was sent and succeeded.
  abbrev answered : Visit E → SyncState → Option ServerKnowledge
  answered v st = elim (delta_guard v.id st) [
    | some e ↦ none
    | none ↦ knowledge (export wire envelope v.client v.environment v.id (delta_options st)).result
  ]

  abbrev visit : Visit E → Session → Session
  visit v s = record {
    state = or_state s.state (delta wire envelope v.client v.environment v.id (some s.state)).state;
    served = noted v.id (answered v s.state) s.served;
  }

  abbrev pub session : SyncState → List (Visit E) → Session
  session st [] = record { state = st; served = [] }
  session st (v ∷ earlier) = visit v (session st earlier)

  export-id :
      (c : Client) (env : Environment E) (id : Bytes) (opts : List ListOption) (v : Exported D)
      → (export wire envelope c env id opts).result ≡ success v
      → id ≢ []
  unfolding export
  export-id c env id opts v h e =
      let passed =
        (call-success wire envelope c env (codes "GET") (join_path (codes "plans" ∷ id ∷ []))
          (apply_list_options [] opts) nil_body v h).1.0 in
      let refused = is_collapsed-join_path b'p' (codes "lans") ([] ∷ []) (ground arith) in
      ground arith

  result-IsOwned :
      (c : Client) (env : Environment E) (id : Bytes) (st : SyncState)
      (log : List (Bytes × ServerKnowledge)) (r : Result E (Exported D))
      → (export wire envelope c env id (delta_options st)).result ≡ r
      → delta_guard id st ≡ none
      → IsOwned st log
      → IsOwned (advance wire envelope id st r) (noted id (knowledge r) log)
  unfolding advance
  result-IsOwned c env id st log (success v) e g h =
      served-IsOwned id st v.server_knowledge log g (export-id c env id (delta_options st) v e) h
  result-IsOwned c env id st log (argument_error x) e g h = h
  result-IsOwned c env id st log encode_error e g h = h
  result-IsOwned c env id st log (attempt_error x) e g h = h
  result-IsOwned c env id st log (canceled_error x) e g h = h
  result-IsOwned c env id st log (api_error x) e g h = h
  result-IsOwned c env id st log decode_error e g h = h

  visit-IsOwned :
      (v : Visit E) (s : Session)
      → IsOwned s.state s.served
      → IsOwned (visit v s).state (visit v s).served
  unfolding delta
  visit-IsOwned v s h = elim (Option-cases (delta_guard v.id s.state)) [
    | inl passed ↦ ground (
      arith,
      passed,
      result-IsOwned v.client v.environment v.id s.state s.served
          (export wire envelope v.client v.environment v.id (delta_options s.state)).result refl
          passed h,
    )
    | inr (e, held) ↦ ground (arith, held)
  ]

  -- Whatever reads of whatever plans a state goes through from fresh, it holds the id and the cursor
  -- of the latest successful one, and all the successful ones read that one plan, whose id is not
  -- empty; without a success it stays fresh.
  pub session-IsOwned :
      (st : SyncState) (visits : List (Visit E))
      → IsFresh st
      → IsOwned (session st visits).state (session st visits).served
  session-IsOwned st [] fresh = fresh
  session-IsOwned st (v ∷ visits) fresh =
      visit-IsOwned v (session st visits) (session-IsOwned st visits fresh)

  -- After any reads from a fresh state, a read that passes the guards sends no cursor, or the one
  -- that the latest successful read of the same plan brought.
  pub delta_options-session :
      (st : SyncState) (visits : List (Visit E)) (id : Bytes)
      → IsFresh st
      → delta_guard id (session st visits).state ≡ none
      → (delta_options (session st visits).state ≡ [])
        ⊎ ((k : ServerKnowledge) × ((earlier : List (Bytes × ServerKnowledge)) × ((delta_options
                    (session st visits).state
                  ≡ since k ∷ [])
                × ((session st visits).served ≡ (id, k) ∷ earlier))))
  delta_options-session st visits id fresh g =
      sent (session st visits).state (session st visits).served (session-IsOwned st visits fresh) g
    where
      sent :
          (s : SyncState) (log : List (Bytes × ServerKnowledge))
          → IsOwned s log
          → delta_guard id s ≡ none
          → (delta_options s ≡ [])
            ⊎ ((k : ServerKnowledge) × ((earlier : List (Bytes × ServerKnowledge)) × ((delta_options
                        s
                      ≡ since k ∷ [])
                    × (log ≡ (id, k) ∷ earlier))))
      sent s [] h p = inl (unfold delta_options in rw h.1 refl)
      sent s ((i, k) ∷ earlier) h p =
          let same : i ≡ id = ground (arith, guard-passed id s p) in
          elim (Bool-cases (eqb_ℤ s.plan (pos 0))) [
            | inl zero_cursor ↦ inl (unfold delta_options in rw zero_cursor refl)
            | inr cursor ↦ inr (
              k,
              (
                earlier,
                (
                  unfold delta_options in (rw cursor (ap (λ n. since n ∷ []) h.1.1.0)),
                  rw same refl,
                ),
              ),
            )
          ]
