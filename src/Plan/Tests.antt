-- ===== src/Plan/Tests.antt =====
-- The theorems at a concrete client, server and sync state.
use ynab_go.Base.{ℕ, ◌≡◌, ◌⊎◌, refl, Option, none, some, List, [], ◌∷◌, Bytes, codes}
use ynab_go.Base.Int.{pos}
use ynab_go.Errors.{WireError}
use ynab_go.Transport.Tests.{server}
use ynab_go.Client.Tests.{plain}
use ynab_go.Client.Call.{Envelope, payload_of}
use ynab_go.Sync.{ServerKnowledge, since, SyncState}
use ynab_go.Plan.{Exported, delta_guard, delta_options}
use ynab_go.Plan.Delta.{Visit, session, IsOwned, session-IsOwned, delta_options-session}

abbrev wire : Bytes → Option WireError
wire b = none

abbrev envelope : Bytes → Envelope (Exported ℕ)
envelope b = payload_of (record { plan = some 5; server_knowledge = pos 42 })

abbrev fresh : SyncState
fresh = record {
  plan_id = [];
  plan = pos 0;
  accounts = pos 3;
  categories = pos 0;
  months = pos 0;
  payees = pos 0;
  transactions = pos 0;
  scheduled = pos 0;
}

abbrev visits : List (Visit ℕ)
visits =
    record { client = plain; environment = server; id = codes "other" }
    ∷ record { client = plain; environment = server; id = codes "home" }
    ∷ []

session-IsOwned_example :
    IsOwned (session wire envelope fresh visits).state (session wire envelope fresh visits).served
session-IsOwned_example = session-IsOwned wire envelope fresh visits (refl, refl)

passes : delta_guard (codes "home") (session {E = ℕ} wire envelope fresh []).state ≡ none
unfolding delta_guard
passes = refl

delta_options-session_example :
    (delta_options fresh ≡ [])
    ⊎ ((k : ServerKnowledge) × ((earlier : List (Bytes × ServerKnowledge)) × ((delta_options fresh
              ≡ since k ∷ [])
            × ([] ≡ (codes "home", k) ∷ earlier))))
delta_options-session_example =
    delta_options-session {E = ℕ} wire envelope fresh [] (codes "home") (refl, refl) passes
