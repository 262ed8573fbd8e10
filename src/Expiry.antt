-- ===== src/Expiry.antt =====
-- Expiry by age (catalog.go, and `pruneOldEntries` of cache.go): batches of keys are read and deleted
-- in transactions of their own, while builds use the same catalog.
pub mod Sort
pub mod Select
pub mod Rows
pub mod Scan
pub mod Outputs
pub mod Complete
pub mod Both
pub mod Kept
pub mod InUse
use gocachez.Prelude.{
  ℕ, zero, suc, ◌+◌, ◌*◌, Bool, true, false, not, ◌&&◌, ◌||◌, Option, none, some, List, [], ◌∷◌,
  map, Bytes, take, select, length, same, ltb, ◌==◌, if◌then◌else◌,
}
use gocachez.Prelude.Int.{ℤ, pos, ltb_ℤ, eqb_ℤ}
use gocachez.Catalog.{Key, Catalog, EntryRow, OutputRow, delete_where}
use gocachez.Catalog.Steps.{Step, run}

abbrev pub age_batch : ℕ
age_batch = 2000

abbrev pub age_max_batches : ℕ
age_max_batches = 2000

-- SQLite's order of BLOBs.
unfoldable pub bytes_before : Bytes → Bytes → Bool
bytes_before as' [] = false
bytes_before [] (b ∷ bs) = true
bytes_before (a ∷ as') (b ∷ bs) = ltb a b || ((a == b) && bytes_before as' bs)

-- ORDER BY
unfoldable pub insert_by {ℓ} : {A : Type ℓ} → (A → A → Bool) → A → List A → List A
insert_by before x [] = x ∷ []
insert_by before x (y ∷ ys) = if before y x then y ∷ insert_by before x ys else x ∷ y ∷ ys

unfoldable pub sort_by {ℓ} : {A : Type ℓ} → (A → A → Bool) → List A → List A
sort_by before [] = []
sort_by before (x ∷ xs) = insert_by before x (sort_by before xs)

-- `staleActionIDs`; the cursor that is not set yet is the empty key.
unfoldable pub stale_action_ids : ℤ → Key → List EntryRow → List Key
stale_action_ids cutoff after entries = take age_batch (
    sort_by bytes_before (
      map (λ e. e.action_id)
        (select (λ e. ltb_ℤ e.accessed_at cutoff && bytes_before after e.action_id) entries)))

-- `staleOutputIDs`
unfoldable pub stale_output_ids : ℤ → List OutputRow → List Key
stale_output_ids cutoff outputs =
    map (λ o. o.output_id)
      (take age_batch (
        sort_by (λ a b. ltb_ℤ a.accessed_at b.accessed_at)
          (select (λ o. ltb_ℤ o.accessed_at cutoff) outputs)))

-- How one transaction goes: whether it begins, is prepared and commits, and whether its n-th delete
-- is executed and counted.
pub record Transaction : Type 0 where
  pub begins : Bool
  pub prepares : Bool
  pub deletes : ℕ → Bool
  pub commits : Bool

-- A table of rows that have a key and an access time.
module _ {A : Type 0} (key : A → Key) (at : A → ℤ) (cutoff : ℤ) where
  -- `DELETE FROM table WHERE key = ? AND accessed_at < ?` deletes these.
  abbrev pub is_doomed : Key → A → Bool
  is_doomed k r = same (key r) k && ltb_ℤ (at r) cutoff

  unfoldable pub delete_keys : (ℕ → Bool) → List Key → ℕ → List A → Option (ℕ × List A)
  delete_keys ok [] n rows = some (0, rows)
  delete_keys ok (k ∷ ks) n rows = elim (ok n) [
    | false ↦ none
    | true ↦ elim (delete_keys ok ks (n + 1) (delete_where (is_doomed k) rows)) [
      | none ↦ none
      | some (m, rows') ↦ some (length (select (is_doomed k) rows) + m, rows')
    ]
  ]

  -- `deleteStaleByKey`: how many rows were deleted and the rows that are left; none is an error,
  -- after which the table is as it was.
  unfoldable pub delete_stale_by_key : Transaction → List Key → List A → Option (ℕ × List A)
  delete_stale_by_key t ks rows =
      if t.begins && t.prepares
      then elim (delete_keys t.deletes ks 0 rows) [
        | none ↦ none
        | some done ↦ if t.commits then some done else none
      ]
      else none

-- One round of a loop: what others do to the catalog before its keys are read, whether they can be
-- read, what others do before they are deleted, and the transaction.
pub record Batch : Type 0 where
  pub before : List Step
  pub reads : Bool
  pub between : List Step
  pub transaction : Transaction

-- The number of rows removed, whether there was an error, and the catalog.
pub record Expired : Type 0 where
  pub removed : ℕ
  pub failed : Bool
  pub catalog : Catalog

abbrev pub last_key : Key → List Key → Key
last_key k [] = k
last_key k (l ∷ ks) = last_key l ks

-- `deleteStaleEntries`, none without fuel.
unfoldable pub delete_stale_entries : (ℕ → Batch) → ℤ → ℕ → ℕ → Key → ℕ → Catalog → Option Expired
delete_stale_entries batches cutoff zero n cursor total c = none
delete_stale_entries batches cutoff (suc fuel) n cursor total c =
    let c1 = run (batches n).before c in
    elim (batches n).reads [
      | false ↦ some (record { removed = total; failed = true; catalog = c1 })
      | true ↦ elim (stale_action_ids cutoff cursor c1.entries) [
        | [] ↦ some (record { removed = total; failed = false; catalog = c1 })
        | k ∷ ks ↦
            let c2 = run (batches n).between c1 in
            elim (delete_stale_by_key (λ e. e.action_id) (λ e. e.accessed_at) cutoff
              (batches n).transaction (k ∷ ks) c2.entries) [
                | none ↦ some (record { removed = total; failed = true; catalog = c2 })
                | some (m, rows) ↦
                    delete_stale_entries batches cutoff fuel (n + 1) (last_key k ks) (total + m)
                      (record c2 { entries = rows })
              ]
      ]
    ]

-- `deleteStaleOutputs`, with the number of batches that are left.
unfoldable pub delete_output_batches : (ℕ → Batch) → ℤ → ℕ → ℕ → ℕ → Catalog → Expired
delete_output_batches batches cutoff zero n total c = record {
  removed = total;
  failed = false;
  catalog = c;
}
delete_output_batches batches cutoff (suc left) n total c =
    let c1 = run (batches n).before c in
    elim (batches n).reads [
      | false ↦ record { removed = total; failed = true; catalog = c1 }
      | true ↦ elim (stale_output_ids cutoff c1.outputs) [
        | [] ↦ record { removed = total; failed = false; catalog = c1 }
        | k ∷ ks ↦
            let c2 = run (batches n).between c1 in
            elim (delete_stale_by_key (λ o. o.output_id) (λ o. o.accessed_at) cutoff
              (batches n).transaction (k ∷ ks) c2.outputs) [
                | none ↦ record { removed = total; failed = true; catalog = c2 }
                | some (m, rows) ↦
                    delete_output_batches batches cutoff left (n + 1) (total + m)
                      (record c2 { outputs = rows })
              ]
      ]
    ]

unfoldable pub delete_stale_outputs : (ℕ → Batch) → ℤ → Catalog → Expired
delete_stale_outputs batches cutoff c = delete_output_batches batches cutoff age_max_batches 0 0 c

-- The Go struct `reaped`, with the error and the catalog.
pub record Reaped : Type 0 where
  pub entries : ℕ
  pub outputs : ℕ
  pub failed : Bool
  pub catalog : Catalog

-- `deleteAccessedBefore`
unfoldable pub delete_accessed_before : (ℕ → Batch) → (ℕ → Batch) → ℤ → ℕ → Catalog → Option Reaped
delete_accessed_before entry_batches output_batches cutoff fuel c =
    elim (delete_stale_entries entry_batches cutoff fuel 0 [] 0 c) [
      | none ↦ none
      | some x ↦
          if x.failed
          then some (record { entries = 0; outputs = 0; failed = true; catalog = x.catalog })
          else let y = delete_stale_outputs output_batches cutoff x.catalog in
            some (record {
              entries = x.removed;
              outputs = if y.failed then 0 else y.removed;
              failed = y.failed;
              catalog = y.catalog;
            })
    ]

-- `pruneOldEntries`
unfoldable pub prune_old_entries : (ℕ → Batch) → (ℕ → Batch) → ℤ → ℕ → Catalog → Option Reaped
prune_old_entries entry_batches output_batches cutoff fuel c =
    if eqb_ℤ cutoff (pos 0)
    then some (record { entries = 0; outputs = 0; failed = false; catalog = c })
    else delete_accessed_before entry_batches output_batches cutoff fuel c
