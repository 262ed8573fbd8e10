-- ===== src/Expiry/Both.antt =====
-- A whole pass of `deleteAccessedBefore`.
use gocachez.Prelude.{
  ℕ, ◌+◌, ◌*◌, ◌≤◌, ◌<◌, ◌≡◌, ◌≢◌, refl, Bool, false, some, List, [], select, length, arith, inl,
  inr, All, All-imp, All-intro,
}
use gocachez.Prelude.Int.{ℤ, ltb_ℤ, leb_ℤ}
use gocachez.Catalog.{Catalog, EntryRow, OutputRow, delete_where}
use gocachez.Expiry.{
  bytes_before, age_batch, delete_stale_entries, delete_output_batches, delete_stale_outputs,
  age_max_batches, Reaped, delete_accessed_before,
}
use gocachez.Expiry.Select.{select-eq, length-select, List-cases}
use gocachez.Expiry.Rows.{quiet}
use gocachez.Expiry.Scan.{left}
use gocachez.Expiry.Outputs.{is_stale}
use gocachez.Expiry.Complete.{delete_stale_entries-Swept, delete_output_batches-Reaped}

-- Rows that are gone are those before the cutoff.
kept_rows :
    {A : Type 0} (at : A → ℤ) (cutoff : ℤ) (p : A → Bool) (xs : List A)
    → All (λ r. p r ≡ ltb_ℤ (at r) cutoff) xs
    → delete_where p xs ≡ select (λ r. leb_ℤ cutoff (at r)) xs
unfolding delete_where
kept_rows at cutoff p xs a = select-eq _ _ xs (All-imp _ _ xs (λ r e. ground (arith, e)) a)

past_nothing :
    (cutoff : ℤ) (e : EntryRow) → e.action_id ≢ [] → left cutoff [] e ≡ ltb_ℤ e.accessed_at cutoff
past_nothing cutoff e h = elim (List-cases e.action_id) [
  | inl n ↦ absurd (h n)
  | inr (k, ks, q) ↦ unfold bytes_before in rw q (ground arith)
]

both_fine :
    (cutoff : ℤ) (fuel m n : ℕ) (c c1 c2 : Catalog)
    → delete_stale_entries (λ _. quiet) cutoff fuel 0 [] 0 c
      ≡ some (record { removed = m; failed = false; catalog = c1 })
    → delete_output_batches (λ _. quiet) cutoff age_max_batches 0 0 c1
      ≡ record { removed = n; failed = false; catalog = c2 }
    → delete_accessed_before (λ _. quiet) (λ _. quiet) cutoff fuel c
      ≡ some (record { entries = m; outputs = n; failed = false; catalog = c2 })
unfolding delete_accessed_before delete_stale_outputs
both_fine cutoff fuel m n c c1 c2 e f = rw (delete_accessed_before, e, f) refl

-- A pass of expiry that nothing disturbs ends, without an error, and leaves exactly the entries and
-- the outputs that were accessed at the cutoff or later, in their order, and it reports how many
-- rows of each table it removed: where no action ID is empty and at most 4,000,000 outputs are
-- stale, with more fuel than there are entries.
pub delete_accessed_before-Reaped :
    (cutoff : ℤ) (fuel : ℕ) (c : Catalog)
    → All (λ e. e.action_id ≢ []) c.entries
    → length c.entries < fuel
    → length (select (λ o. ltb_ℤ o.accessed_at cutoff) c.outputs) ≤ age_max_batches * age_batch
    → (r : Reaped) × (delete_accessed_before (λ _. quiet) (λ _. quiet) cutoff fuel c ≡ some r)
      × (r.failed ≡ false)
      × (r.catalog ≡ record c {
        entries = select (λ e. leb_ℤ cutoff e.accessed_at) c.entries;
        outputs = select (λ o. leb_ℤ cutoff o.accessed_at) c.outputs;
      })
      × (r.entries + length r.catalog.entries ≡ length c.entries)
      × (r.outputs + length r.catalog.outputs ≡ length c.outputs)
delete_accessed_before-Reaped cutoff fuel c named enough few =
    let x =
      delete_stale_entries-Swept cutoff fuel 0 0 [] c
        (omega (arith, enough, length-select (left cutoff []) c.entries)) in
    let mid : Catalog = record c { entries = delete_where (left cutoff []) c.entries } in
    let y = delete_output_batches-Reaped cutoff age_max_batches 0 0 mid few in
    let es =
      kept_rows (λ (e : EntryRow). e.accessed_at) cutoff (left cutoff []) c.entries
        (All-imp _ _ c.entries (past_nothing cutoff) named) in
    let os =
      kept_rows (λ (o : OutputRow). o.accessed_at) cutoff (is_stale cutoff) c.outputs
        (All-intro _ (λ _. refl) c.outputs) in
    let r : Reaped = record {
      entries = x.removed;
      outputs = y.removed;
      failed = false;
      catalog = record mid { outputs = delete_where (is_stale cutoff) c.outputs };
    } in
    (
      r,
      both_fine cutoff fuel x.removed y.removed c mid r.catalog x.result y.result,
      refl,
      cc (es, os),
      omega (arith, x.balance),
      omega (arith, y.balance),
    )
