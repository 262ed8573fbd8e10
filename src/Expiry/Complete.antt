-- ===== src/Expiry/Complete.antt =====
-- What `deleteStaleEntries` and `deleteStaleOutputs` leave when nothing fails and nobody else writes.
use gocachez.Prelude.{
  ℕ, zero, suc, ◌+◌, ◌*◌, ◌≤◌, ◌<◌, ◌≡◌, refl, sym, ap, ◌∙◌, Bool, false, Option, some, List, [],
  ◌∷◌, map, select, length, arith, inl, inr,
}
use gocachez.Prelude.Int.{ℤ}
use gocachez.Catalog.{Key, Catalog, EntryRow, OutputRow, delete_where}
use gocachez.Catalog.Steps.{run}
use gocachez.Expiry.{
  Expired, last_key, age_batch, stale_action_ids, stale_output_ids, delete_stale_entries,
  delete_output_batches, delete_stale_by_key,
}
use gocachez.Expiry.Select.{sort-nil, length-zero, List-cases, delete_where-none, map-nil, take-nil}
use gocachez.Expiry.Rows.{smooth, delete_stale_by_key-Done, quiet}
use gocachez.Expiry.Scan.{left, taken, fewer, then_the_rest}
use gocachez.Expiry.Outputs.{is_stale, taken_outputs, batch_fewer, stale_rest, no_stale}

-- The rows that pass the test are gone, the others as they were, and the count is theirs.
pub record Swept (total : ℕ) (c : Catalog) (p : EntryRow → Bool) (r : Option Expired) : Type 0 where
  pub removed : ℕ
  pub result :
      r
      ≡ some (record {
        removed = removed;
        failed = false;
        catalog = record c { entries = delete_where p c.entries };
      })
  pub balance : removed + length (delete_where p c.entries) ≡ total + length c.entries

nothing_left :
    (cutoff : ℤ) (cursor : Key) (xs : List EntryRow)
    → stale_action_ids cutoff cursor xs ≡ []
    → delete_where (left cutoff cursor) xs ≡ xs
unfolding stale_action_ids
nothing_left cutoff cursor xs e = delete_where-none (left cutoff cursor) xs (
    map-nil (λ r. r.action_id) (select (left cutoff cursor) xs)
      (sort-nil (map (λ r. r.action_id) (select (left cutoff cursor) xs)) (take-nil 1999 _ e)))

module _ (cutoff : ℤ) where
  abbrev entries_loop : ℕ → ℕ → Key → ℕ → Catalog → Option Expired
  entries_loop = delete_stale_entries (λ _. quiet) cutoff

  entries_stop :
      (fuel n total : ℕ) (cursor : Key) (c : Catalog)
      → stale_action_ids cutoff cursor c.entries ≡ []
      → entries_loop (suc fuel) n cursor total c
        ≡ some (record { removed = total; failed = false; catalog = c })
  unfolding delete_stale_entries run
  entries_stop fuel n total cursor c e = rw (delete_stale_entries, e) refl

  entries_next :
      (fuel n total : ℕ) (cursor : Key) (c : Catalog) (k : Key) (ks : List Key) (m : ℕ)
      (rows : List EntryRow)
      → stale_action_ids cutoff cursor c.entries ≡ k ∷ ks
      → delete_stale_by_key (λ r. r.action_id) (λ r. r.accessed_at) cutoff smooth (k ∷ ks) c.entries
        ≡ some (m, rows)
      → entries_loop (suc fuel) n cursor total c
        ≡ entries_loop fuel (n + 1) (last_key k ks) (total + m) (record c { entries = rows })
  unfolding delete_stale_entries run
  entries_next fuel n total cursor c k ks m rows e d = rw (delete_stale_entries, e, d) refl

  pub delete_stale_entries-Swept :
      (fuel n total : ℕ) (cursor : Key) (c : Catalog)
      → length (select (left cutoff cursor) c.entries) < fuel
      → Swept total c (left cutoff cursor) (entries_loop fuel n cursor total c)
  delete_stale_entries-Swept zero n total cursor c h = absurd (omega arith)
  delete_stale_entries-Swept (suc fuel) n total cursor c h =
      elim (List-cases (stale_action_ids cutoff cursor c.entries)) [
        | inl e ↦
            let kept = nothing_left cutoff cursor c.entries e in
            record {
              removed = total;
              result =
                  entries_stop fuel n total cursor c e
                  ∙ ap
                      (λ rows. some (record {
                        removed = total;
                        failed = false;
                        catalog = record c { entries = rows };
                      }))
                      (sym kept);
              balance = omega (arith, ap length kept);
            }
        | inr (k, ks, e) ↦
            let d =
              delete_stale_by_key-Done (λ (r : EntryRow). r.action_id) (λ r. r.accessed_at) cutoff
                (k ∷ ks) c.entries in
            let rows = delete_where (taken cutoff cursor c.entries k ks e) c.entries in
            let ih =
              delete_stale_entries-Swept fuel (n + 1) (total + d.removed) (last_key k ks)
                (record c { entries = rows })
                (omega (arith, h, fewer cutoff cursor c.entries k ks e)) in
            let rest = then_the_rest cutoff cursor c.entries k ks e in
            record {
              removed = ih.removed;
              result =
                  entries_next fuel n total cursor c k ks d.removed rows e d.result
                  ∙ ih.result
                  ∙ ap
                      (λ left_rows. some (record {
                        removed = ih.removed;
                        failed = false;
                        catalog = record c { entries = left_rows };
                      }))
                      rest;
              balance = omega (arith, ih.balance, d.balance, ap length rest);
            }
      ]

-- The same for outputs.
pub record ReapedOutputs (total : ℕ) (c : Catalog) (p : OutputRow → Bool) (r : Expired)
    : Type 0 where
  pub removed : ℕ
  pub result : r ≡ record {
    removed = removed;
    failed = false;
    catalog = record c { outputs = delete_where p c.outputs };
  }
  pub balance : removed + length (delete_where p c.outputs) ≡ total + length c.outputs

module _ (cutoff : ℤ) where
  abbrev outputs_loop : ℕ → ℕ → ℕ → Catalog → Expired
  outputs_loop = delete_output_batches (λ _. quiet) cutoff

  outputs_stop :
      (b n total : ℕ) (c : Catalog)
      → stale_output_ids cutoff c.outputs ≡ []
      → outputs_loop (suc b) n total c ≡ record { removed = total; failed = false; catalog = c }
  unfolding delete_output_batches run
  outputs_stop b n total c e = rw (delete_output_batches, e) refl

  outputs_next :
      (b n total : ℕ) (c : Catalog) (k : Key) (ks : List Key) (m : ℕ) (rows : List OutputRow)
      → stale_output_ids cutoff c.outputs ≡ k ∷ ks
      → delete_stale_by_key (λ r. r.output_id) (λ r. r.accessed_at) cutoff smooth (k ∷ ks) c.outputs
        ≡ some (m, rows)
      → outputs_loop (suc b) n total c
        ≡ outputs_loop b (n + 1) (total + m) (record c { outputs = rows })
  unfolding delete_output_batches run
  outputs_next b n total c k ks m rows e d = rw (delete_output_batches, e, d) refl

  outputs_gone :
      (total : ℕ) (c : Catalog) (r : Expired)
      → select (is_stale cutoff) c.outputs ≡ []
      → r ≡ record { removed = total; failed = false; catalog = c }
      → ReapedOutputs total c (is_stale cutoff) r
  outputs_gone total c r e q =
      let kept = delete_where-none (is_stale cutoff) c.outputs e in
      record {
        removed = total;
        result =
            q
            ∙ ap
                (λ rows. record {
                  removed = total;
                  failed = false;
                  catalog = record c { outputs = rows };
                })
                (sym kept);
        balance = omega (arith, ap length kept);
      }

  pub delete_output_batches-Reaped :
      (b n total : ℕ) (c : Catalog)
      → length (select (is_stale cutoff) c.outputs) ≤ b * age_batch
      → ReapedOutputs total c (is_stale cutoff) (outputs_loop b n total c)
  delete_output_batches-Reaped zero n total c h =
      outputs_gone total c _ (length-zero (select (is_stale cutoff) c.outputs) (omega arith))
        (unfold delete_output_batches in refl)
  delete_output_batches-Reaped (suc b) n total c h =
      elim (List-cases (stale_output_ids cutoff c.outputs)) [
        | inl e ↦ outputs_gone total c _ (no_stale cutoff c.outputs e) (outputs_stop b n total c e)
        | inr (k, ks, e) ↦
            let d =
              delete_stale_by_key-Done (λ (r : OutputRow). r.output_id) (λ r. r.accessed_at) cutoff
                (k ∷ ks) c.outputs in
            let rows = delete_where (taken_outputs cutoff c.outputs k ks e) c.outputs in
            let ih =
              delete_output_batches-Reaped b (n + 1) (total + d.removed)
                (record c { outputs = rows })
                (omega (arith, h, batch_fewer cutoff c.outputs k ks e)) in
            let rest = stale_rest cutoff c.outputs k ks e in
            record {
              removed = ih.removed;
              result =
                  outputs_next b n total c k ks d.removed rows e d.result
                  ∙ ih.result
                  ∙ ap
                      (λ left_rows. record {
                        removed = ih.removed;
                        failed = false;
                        catalog = record c { outputs = left_rows };
                      })
                      rest;
              balance = omega (arith, ih.balance, d.balance, ap length rest);
            }
      ]
