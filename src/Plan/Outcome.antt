-- ===== src/Plan/Outcome.antt =====
-- plan.go, Delta: when the state moves, and what the caller gets.
use ynab_go.Base.Int.{pos}
use ynab_go.Base.{[], ◌≡◌, ◌≢◌, ◌⊎◌, Option, some, Bytes}
use ynab_go.Errors.{WireError}
use ynab_go.Client.{Client}
use ynab_go.Client.Call.{Result, success, Envelope}
use ynab_go.Sync.{SyncState}
use ynab_go.Plan.{Exported, DeltaCall}

-- The state carries a cursor of this plan, or none at all.
abbrev pub Admits : Bytes → SyncState → Type 0
Admits id st = ((st.plan_id ≢ []) × (st.plan_id ≡ id)) ⊎ ((st.plan_id ≡ []) × (st.plan ≡ pos 0))

module _ {E : Type 0} {D : Type 0} (wire : Bytes → Option WireError)
    (envelope : Bytes → Envelope (Exported D)) where
  -- What Delta leaves and returns, for an export with the result `made`.
  abbrev pub IsDelta : Bytes → SyncState → Result E (Exported D) → DeltaCall E D → Type 0
  IsDelta id st made d =
      ((v : Exported D) × (Admits id st
          × ((made ≡ success v)
              × ((d.returned.result ≡ success v.plan)
                  × (d.state ≡ some (record st { plan_id = id; plan = v.server_knowledge }))))))
      ⊎ ((d.state ≡ some st)
          × (((x : Option D) → d.returned.result ≢ success x)
              × (((¬ Admits id st) × (d.returned.trace ≡ []))
                  ⊎ ((v : Exported D) → made ≢ success v))))
