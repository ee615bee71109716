-- ===== src/Sync/Tests.antt =====
-- The theorems at a concrete store and batch.
use ynab_go.Base.{ℕ, ◌≡◌, Bool, true, false, List, [], ◌∷◌, Bytes, codes}
use ynab_go.Std.Maps.{Map, lookup}
use ynab_go.Sync.{Syncable, merge_by_id}
use ynab_go.Sync.Merge.{last_change, resolved, lookup-merge_by_id}

-- A payee: its id, whether it is deleted, and a version.
abbrev Payee : Type 0
Payee = Bytes × Bool × ℕ

abbrev payee : Syncable Payee
payee = record { sync_id = λ p. p.0; is_deleted = λ p. p.1 }

abbrev store : Map Payee
store = (codes "a", (codes "a", false, 1)) ∷ (codes "b", (codes "b", false, 1)) ∷ []

abbrev batch : List Payee
batch = (codes "a", true, 2) ∷ (codes "b", false, 2) ∷ (codes "a", false, 3) ∷ []

lookup-merge_by_id_example :
    lookup (codes "a") (merge_by_id payee store batch)
    ≡ resolved payee (last_change payee (codes "a") batch) (lookup (codes "a") store)
lookup-merge_by_id_example = lookup-merge_by_id payee (codes "a") store batch
