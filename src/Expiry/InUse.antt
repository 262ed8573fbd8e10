-- ===== src/Expiry/InUse.antt =====
-- What expiry by age keeps of the catalog: entries in use and its well-formedness.
use gocachez.Prelude.{ℕ, ◌≡◌, true, ◌&&◌, some, [], ◌∷◌, find, arith}
use gocachez.Prelude.Int.{ℤ, ltb_ℤ, leb_ℤ}
use gocachez.Catalog.{Key, Catalog, EntryRow, OutputRow, has_action_id, has_id, has_output_id}
use gocachez.Catalog.Steps.{run, expire_entry, expire_output, stale_entry, stale_output, apply}
use gocachez.Catalog.WellFormed.{IsWellFormed}
use gocachez.Catalog.Invariant.{run-IsWellFormed}
use gocachez.Catalog.Found.{find-delete_where_kept}
use gocachez.Expiry.{Batch, prune_old_entries}
use gocachez.Expiry.Kept.{Harmless, KeptReaped, prune_old_entries-Kept}

-- The action has an entry and the entry an output, both accessed at the cutoff or later.
pub record IsUsed (cutoff : ℤ) (action : Key) (c : Catalog) : Type 0 where
  pub entry : EntryRow
  pub output : OutputRow
  pub its_entry : find (has_action_id action) c.entries ≡ some entry
  pub its_output : find (has_id entry.output) c.outputs ≡ some output
  pub entry_fresh : leb_ℤ cutoff entry.accessed_at ≡ true
  pub output_fresh : leb_ℤ cutoff output.accessed_at ≡ true

module _ (cutoff : ℤ) (action : Key) where
  after_expire_entry :
      (k : Key) (c : Catalog)
      → IsUsed cutoff action c
      → IsUsed cutoff action (expire_entry k cutoff c)
  unfolding expire_entry
  after_expire_entry k c u = record {
    entry = u.entry;
    output = u.output;
    its_entry =
        find-delete_where_kept (has_action_id action)
          (λ e. has_action_id k e && ltb_ℤ e.accessed_at cutoff) c.entries u.entry u.its_entry
          (ground (arith, u.entry_fresh));
    its_output = u.its_output;
    entry_fresh = u.entry_fresh;
    output_fresh = u.output_fresh;
  }

  after_expire_output :
      (k : Key) (c : Catalog)
      → IsUsed cutoff action c
      → IsUsed cutoff action (expire_output k cutoff c)
  unfolding expire_output
  after_expire_output k c u = record {
    entry = u.entry;
    output = u.output;
    its_entry = u.its_entry;
    its_output =
        find-delete_where_kept (has_id u.entry.output)
          (λ o. has_output_id k o && ltb_ℤ o.accessed_at cutoff) c.outputs u.output u.its_output
          (ground (arith, u.output_fresh));
    entry_fresh = u.entry_fresh;
    output_fresh = u.output_fresh;
  }

  -- Expiry never takes an action that is in use: where what other processes do meanwhile leaves the
  -- action with an entry and an output that are both accessed at the cutoff or later, the action has
  -- them after the pass, at whichever batch the pass stops and whatever failed.
  pub prune_old_entries-IsUsed :
      (entry_rounds output_rounds : ℕ → Batch) (fuel : ℕ) (c : Catalog)
      → Harmless (IsUsed cutoff action) entry_rounds
      → Harmless (IsUsed cutoff action) output_rounds
      → IsUsed cutoff action c
      → KeptReaped
          (IsUsed cutoff action)
          (prune_old_entries entry_rounds output_rounds cutoff fuel c)
  prune_old_entries-IsUsed es os fuel c he ho u =
      prune_old_entries-Kept (IsUsed cutoff action) cutoff after_expire_entry after_expire_output es
        os he ho fuel c u

-- Expiry keeps the catalog well-formed, whatever else runs between its batches and whatever fails.
pub prune_old_entries-IsWellFormed :
    (cutoff : ℤ) (entry_rounds output_rounds : ℕ → Batch) (fuel : ℕ) (c : Catalog)
    → IsWellFormed c
    → KeptReaped IsWellFormed (prune_old_entries entry_rounds output_rounds cutoff fuel c)
prune_old_entries-IsWellFormed cutoff es os fuel c w =
    prune_old_entries-Kept IsWellFormed cutoff
      (λ k d v. unfold run apply in run-IsWellFormed (stale_entry k cutoff ∷ []) v)
      (λ k d v. unfold run apply in run-IsWellFormed (stale_output k cutoff ∷ []) v) es os
      (others es) (others os) fuel c w
  where
    others : (rounds : ℕ → Batch) → Harmless IsWellFormed rounds
    others rounds n d v =
        (run-IsWellFormed (rounds n).before v, run-IsWellFormed (rounds n).between v)
