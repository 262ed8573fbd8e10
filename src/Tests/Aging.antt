-- ===== src/Tests/Aging.antt =====
-- The theorems on expiry by age at a catalog with a stale action and one in use.
use gocachez.Prelude.{
  ℕ, ◌+◌, ◌≤◌, ◌≡◌, refl, false, none, some, [], ◌∷◌, select, find, same, length, arith,
}
use gocachez.Prelude.Int.{pos, ltb_ℤ, leb_ℤ}
use gocachez.Catalog.{OutputRow, EntryRow, Catalog, delete_where}
use gocachez.Catalog.Steps.{run}
use gocachez.Expiry.{
  Reaped, delete_accessed_before, prune_old_entries, delete_stale_entries, delete_output_batches,
  delete_stale_outputs, delete_keys, delete_stale_by_key, stale_action_ids, stale_output_ids,
  sort_by, insert_by, bytes_before,
}
use gocachez.Expiry.Rows.{quiet}
use gocachez.Expiry.Kept.{KeptReaped}
use gocachez.Expiry.InUse.{IsUsed, prune_old_entries-IsUsed}
use gocachez.Expiry.Both.{delete_accessed_before-Reaped}

abbrev stale_output : OutputRow
stale_output = record {
  id = 1;
  output_id = 1 ∷ 1 ∷ [];
  size = 20;
  compressed_size = 10;
  accessed_at = pos 100;
  blob_type = none;
  blob_type_version = none;
  retained_type = none;
  retained_type_version = none;
}

abbrev pub fresh_output : OutputRow
fresh_output = record stale_output { id = 2; output_id = 2 ∷ 2 ∷ []; accessed_at = pos 200 }

abbrev stale_entry : EntryRow
stale_entry = record {
  action_id = 7 ∷ [];
  output = 1;
  output_tag = 1 ∷ 1 ∷ [];
  created_at = pos 90;
  accessed_at = pos 100;
}

abbrev fresh_entry : EntryRow
fresh_entry = record stale_entry {
  action_id = 8 ∷ [];
  output = 2;
  output_tag = 2 ∷ 2 ∷ [];
  accessed_at = pos 200;
}

abbrev pub aged : Catalog
aged = record {
  outputs = stale_output ∷ fresh_output ∷ [];
  entries = stale_entry ∷ fresh_entry ∷ [];
  runs = [];
  sequence = 2;
}

expired :
    prune_old_entries (λ _. quiet) (λ _. quiet) (pos 150) 3 aged
    ≡ some (record {
      entries = 1;
      outputs = 1;
      failed = false;
      catalog = record aged { outputs = fresh_output ∷ []; entries = fresh_entry ∷ [] };
    })
unfolding prune_old_entries delete_accessed_before delete_stale_entries delete_stale_outputs
    delete_output_batches delete_keys delete_stale_by_key stale_action_ids stale_output_ids sort_by
    insert_by bytes_before select same delete_where run
expired = refl

delete_accessed_before-Reaped_example :
    (r : Reaped) × (delete_accessed_before (λ _. quiet) (λ _. quiet) (pos 150) 3 aged ≡ some r)
    × (r.failed ≡ false)
    × (r.catalog ≡ record aged {
      entries = select (λ e. leb_ℤ (pos 150) e.accessed_at) aged.entries;
      outputs = select (λ o. leb_ℤ (pos 150) o.accessed_at) aged.outputs;
    })
    × (r.entries + length r.catalog.entries ≡ 2)
    × (r.outputs + length r.catalog.outputs ≡ 2)
delete_accessed_before-Reaped_example =
    delete_accessed_before-Reaped (pos 150) 3 aged ((λ e. absurd (cc)), ((λ e. absurd (cc)), tt))
      (omega arith) few
  where
    few : length (select (λ (o : OutputRow). ltb_ℤ o.accessed_at (pos 150)) aged.outputs) ≤ 4000000
    few = unfold select in omega arith

used : IsUsed (pos 150) (8 ∷ []) aged
unfolding find same
used = record {
  entry = fresh_entry;
  output = fresh_output;
  its_entry = refl;
  its_output = refl;
  entry_fresh = refl;
  output_fresh = refl;
}

prune_old_entries-IsUsed_example :
    KeptReaped
      (IsUsed (pos 150) (8 ∷ []))
      (prune_old_entries (λ _. quiet) (λ _. quiet) (pos 150) 3 aged)
prune_old_entries-IsUsed_example =
    prune_old_entries-IsUsed (pos 150) (8 ∷ []) (λ _. quiet) (λ _. quiet) 3 aged idle idle used
  where
    idle :
        (n : ℕ) (c : Catalog)
        → IsUsed (pos 150) (8 ∷ []) c
        → IsUsed (pos 150) (8 ∷ []) (run [] c) × IsUsed (pos 150) (8 ∷ []) (run [] c)
    idle n c u = unfold run in (u, u)
