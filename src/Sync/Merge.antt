-- ===== src/Sync/Merge.antt =====
-- What a store holds after a merge: for each key the last change of the batch with that key, or
-- what it held before.
use ynab_go.Base.{
  ◌≡◌, refl, false, Bool-cases, inl, inr, Option, none, some, List, [], ◌∷◌, arith, Bytes, bytes_eq,
  if◌then◌else◌, All,
}
use ynab_go.Std.Maps.{Map, lookup, insert, delete, lookup-insert, lookup-delete}
use ynab_go.Sync.{Syncable, merge_one, merge_by_id}

module _ {T : Type 0} (entity : Syncable T) where
  -- The last change with the key, if there is one.
  abbrev pub last_change : Bytes → List T → Option T
  last_change k [] = none
  last_change k (c ∷ changes) = elim (last_change k changes) [
    | some d ↦ some d
    | none ↦ if bytes_eq k (entity.sync_id c) then some c else none
  ]

  -- What a change leaves under its key.
  abbrev pub remains : T → Option T
  remains c = if entity.is_deleted c then none else some c

  abbrev pub resolved : Option T → Option T → Option T
  resolved none before = before
  resolved (some c) before = remains c

  lookup-merge_one :
      (k : Bytes) (local : Map T) (c : T)
      → lookup k (merge_one entity local c)
        ≡ (if bytes_eq k (entity.sync_id c) then remains c else lookup k local)
  unfolding merge_one
  lookup-merge_one k local c =
      ground (
        arith,
        lookup-insert k (entity.sync_id c) c local,
        lookup-delete k (entity.sync_id c) local,
      )

  -- After a merge a key holds what the last change of the batch with that key leaves: nothing for a
  -- tombstone, else that change; a key that no change names holds what it held.
  pub lookup-merge_by_id :
      (k : Bytes) (local : Map T) (changes : List T)
      → lookup k (merge_by_id entity local changes)
        ≡ resolved (last_change k changes) (lookup k local)
  unfolding merge_by_id
  lookup-merge_by_id k local [] = refl
  lookup-merge_by_id k local (c ∷ changes) =
      ground
        (arith, lookup-merge_by_id k (merge_one entity local c) changes, lookup-merge_one k local c)

  -- Merging a batch a second time changes no key.
  pub merge_by_id_twice :
      (k : Bytes) (local : Map T) (changes : List T)
      → lookup k (merge_by_id entity (merge_by_id entity local changes) changes)
        ≡ lookup k (merge_by_id entity local changes)
  merge_by_id_twice k local changes = ground (
    arith,
    lookup-merge_by_id k (merge_by_id entity local changes) changes,
    lookup-merge_by_id k local changes,
  )

  -- A store as merges build it: every entry stands under its own id and none is a tombstone.
  abbrev pub IsLive : Bytes × T → Type 0
  IsLive (k, c) = (entity.sync_id c ≡ k) × (entity.is_deleted c ≡ false)

  abbrev pub IsStore : Map T → Type 0
  IsStore = All IsLive

  insert-IsStore :
      (k : Bytes) (c : T) (m : Map T) → IsLive (k, c) → IsStore m → IsStore (insert k c m)
  unfolding insert
  insert-IsStore k c [] live h = ground arith
  insert-IsStore k c ((j, d) ∷ m) live h = ground (arith, insert-IsStore k c m live h.1)

  delete-IsStore : (k : Bytes) (m : Map T) → IsStore m → IsStore (delete k m)
  unfolding delete
  delete-IsStore k [] h = h
  delete-IsStore k ((j, d) ∷ m) h = ground (arith, delete-IsStore k m h.1)

  merge_one-IsStore : (m : Map T) (c : T) → IsStore m → IsStore (merge_one entity m c)
  unfolding merge_one
  merge_one-IsStore m c h = elim (Bool-cases (entity.is_deleted c)) [
    | inl gone ↦ rw gone (delete-IsStore (entity.sync_id c) m h)
    | inr live ↦ rw live (insert-IsStore (entity.sync_id c) c m (refl, live) h)
  ]

  -- If every entry of a store stands under its own id and none is a tombstone, that holds after a
  -- merge too.
  pub merge_by_id-IsStore :
      (m : Map T) (changes : List T) → IsStore m → IsStore (merge_by_id entity m changes)
  unfolding merge_by_id
  merge_by_id-IsStore m [] h = h
  merge_by_id-IsStore m (c ∷ changes) h =
      merge_by_id-IsStore (merge_one entity m c) changes (merge_one-IsStore m c h)
