-- ===== src/Expiry/Kept.antt =====
-- What a pass of expiry keeps, while others use the catalog and whatever fails.
use gocachez.Prelude.{
  ℕ, zero, suc, ◌+◌, Bool, ◌&&◌, Option, none, some, List, [], ◌∷◌, Bool-cases, inl, inr,
}
use gocachez.Prelude.Int.{ℤ, pos}
use gocachez.Catalog.{Key, Catalog, EntryRow, OutputRow}
use gocachez.Catalog.Steps.{run}
use gocachez.Expiry.{
  Batch, Expired, last_key, stale_action_ids, stale_output_ids, delete_stale_entries,
  delete_output_batches, delete_stale_outputs, age_max_batches, delete_stale_by_key, Transaction,
  delete_keys, Reaped, delete_accessed_before, prune_old_entries,
}
use gocachez.Expiry.Select.{List-cases}
use gocachez.Expiry.Scan.{left}
use gocachez.Prelude.{Option-cases}
use gocachez.Prelude.Int.{eqb_ℤ}
use gocachez.Catalog.Steps.{expire_entry, expire_output}

-- What others do in the rounds keeps a property of the catalog, and a pass ends with it.
module _ (Q : Catalog → Type 0) where
  abbrev pub Harmless : (ℕ → Batch) → Type 0
  Harmless batches =
      (n : ℕ) (c : Catalog) → Q c → Q (run (batches n).before c) × Q (run (batches n).between c)

  abbrev pub KeptReaped : Option Reaped → Type 0
  KeptReaped none = Unit
  KeptReaped (some r) = Q r.catalog

-- What no deletion of a stale row takes away and nobody else either holds all along.
module _ (Q : Catalog → Type 0) (cutoff : ℤ)
    (by_entry : (k : Key) (c : Catalog) → Q c → Q (expire_entry k cutoff c))
    (by_output : (k : Key) (c : Catalog) → Q c → Q (expire_output k cutoff c)) where
  abbrev KeptEntries : Catalog → Option (ℕ × List EntryRow) → Type 0
  KeptEntries c none = Unit
  KeptEntries c (some (m, rows)) = Q (record c { entries = rows })

  abbrev KeptOutputs : Catalog → Option (ℕ × List OutputRow) → Type 0
  KeptOutputs c none = Unit
  KeptOutputs c (some (m, rows)) = Q (record c { outputs = rows })

  entry_keys :
      (ok : ℕ → Bool) (ks : List Key) (n : ℕ) (c : Catalog)
      → Q c
      → KeptEntries c (delete_keys (λ e. e.action_id) (λ e. e.accessed_at) cutoff ok ks n c.entries)
  unfolding delete_keys expire_entry
  entry_keys ok [] n c q = q
  entry_keys ok (k ∷ ks) n c q =
      let c' = expire_entry k cutoff c in
      let ih = entry_keys ok ks (n + 1) c' (by_entry k c q) in
      elim (Bool-cases (ok n)) [
        | inr f ↦ rw (delete_keys, f) tt
        | inl t ↦
            elim (Option-cases (
              delete_keys (λ (e : EntryRow). e.action_id) (λ e. e.accessed_at) cutoff ok ks (n + 1)
                c'.entries)) [
                  | inl e ↦ rw (delete_keys, t, e) tt
                  | inr ((m, rows), e) ↦ rw (delete_keys, t, e) (rw e at ih)
                ]
      ]

  output_keys :
      (ok : ℕ → Bool) (ks : List Key) (n : ℕ) (c : Catalog)
      → Q c
      → KeptOutputs c (delete_keys (λ o. o.output_id) (λ o. o.accessed_at) cutoff ok ks n c.outputs)
  unfolding delete_keys expire_output
  output_keys ok [] n c q = q
  output_keys ok (k ∷ ks) n c q =
      let c' = expire_output k cutoff c in
      let ih = output_keys ok ks (n + 1) c' (by_output k c q) in
      elim (Bool-cases (ok n)) [
        | inr f ↦ rw (delete_keys, f) tt
        | inl t ↦
            elim (Option-cases (
              delete_keys (λ (o : OutputRow). o.output_id) (λ o. o.accessed_at) cutoff ok ks (n + 1)
                c'.outputs)) [
                  | inl e ↦ rw (delete_keys, t, e) tt
                  | inr ((m, rows), e) ↦ rw (delete_keys, t, e) (rw e at ih)
                ]
      ]

  -- The same of a whole transaction, which takes all of its deletions back when it fails.
  abbrev stale_entries : Transaction → List Key → Catalog → Option (ℕ × List EntryRow)
  stale_entries t ks c =
      delete_stale_by_key (λ e. e.action_id) (λ e. e.accessed_at) cutoff t ks c.entries

  abbrev stale_outputs : Transaction → List Key → Catalog → Option (ℕ × List OutputRow)
  stale_outputs t ks c =
      delete_stale_by_key (λ o. o.output_id) (λ o. o.accessed_at) cutoff t ks c.outputs

  entry_transaction :
      (t : Transaction) (ks : List Key) (c : Catalog) → Q c → KeptEntries c (stale_entries t ks c)
  unfolding delete_stale_by_key
  entry_transaction t ks c q =
      let ih = entry_keys t.deletes ks 0 c q in
      elim (Bool-cases (t.begins && t.prepares)) [
        | inr f ↦ rw (delete_stale_by_key, f) tt
        | inl b ↦
            elim (Option-cases (
              delete_keys (λ (e : EntryRow). e.action_id) (λ e. e.accessed_at) cutoff t.deletes ks 0
                c.entries)) [
                  | inl e ↦ rw (delete_stale_by_key, b, e) tt
                  | inr ((m, rows), e) ↦ elim (Bool-cases t.commits) [
                    | inr f ↦ rw (delete_stale_by_key, b, e, f) tt
                    | inl d ↦ rw (delete_stale_by_key, b, e, d) (rw e at ih)
                  ]
                ]
      ]

  output_transaction :
      (t : Transaction) (ks : List Key) (c : Catalog) → Q c → KeptOutputs c (stale_outputs t ks c)
  unfolding delete_stale_by_key
  output_transaction t ks c q =
      let ih = output_keys t.deletes ks 0 c q in
      elim (Bool-cases (t.begins && t.prepares)) [
        | inr f ↦ rw (delete_stale_by_key, f) tt
        | inl b ↦
            elim (Option-cases (
              delete_keys (λ (o : OutputRow). o.output_id) (λ o. o.accessed_at) cutoff t.deletes ks
                0 c.outputs)) [
                  | inl e ↦ rw (delete_stale_by_key, b, e) tt
                  | inr ((m, rows), e) ↦ elim (Bool-cases t.commits) [
                    | inr f ↦ rw (delete_stale_by_key, b, e, f) tt
                    | inl d ↦ rw (delete_stale_by_key, b, e, d) (rw e at ih)
                  ]
                ]
      ]

  abbrev KeptExpired : Option Expired → Type 0
  KeptExpired none = Unit
  KeptExpired (some x) = Q x.catalog

  entry_batches :
      (batches : ℕ → Batch)
      → Harmless Q batches
      → (fuel n total : ℕ) (cursor : Key) (c : Catalog) → Q c
      → KeptExpired (delete_stale_entries batches cutoff fuel n cursor total c)
  unfolding delete_stale_entries
  entry_batches batches h zero n total cursor c q = tt
  entry_batches batches h (suc fuel) n total cursor c q =
      let b = batches n in
      let c1 = run b.before c in
      let q1 = (h n c q).0 in
      let c2 = run b.between c1 in
      let q2 = (h n c1 q1).1 in
      elim (Bool-cases b.reads) [
        | inr f ↦ rw (delete_stale_entries, f) q1
        | inl t ↦ elim (List-cases (stale_action_ids cutoff cursor c1.entries)) [
          | inl e ↦ rw (delete_stale_entries, t, e) q1
          | inr (k, ks, e) ↦
              let done = entry_transaction b.transaction (k ∷ ks) c2 q2 in
              elim (Option-cases (stale_entries b.transaction (k ∷ ks) c2)) [
                | inl d ↦ rw (delete_stale_entries, t, e, d) q2
                | inr ((m, rows), d) ↦
                    rw (delete_stale_entries, t, e, d)
                      (entry_batches batches h fuel (n + 1) (total + m) (last_key k ks)
                        (record c2 { entries = rows }) (rw d at done))
              ]
        ]
      ]

  output_batches :
      (batches : ℕ → Batch)
      → Harmless Q batches
      → (left n total : ℕ) (c : Catalog) → Q c
      → Q (delete_output_batches batches cutoff left n total c).catalog
  unfolding delete_output_batches
  output_batches batches h zero n total c q = q
  output_batches batches h (suc left) n total c q =
      let b = batches n in
      let c1 = run b.before c in
      let q1 = (h n c q).0 in
      let c2 = run b.between c1 in
      let q2 = (h n c1 q1).1 in
      elim (Bool-cases b.reads) [
        | inr f ↦ rw (delete_output_batches, f) q1
        | inl t ↦ elim (List-cases (stale_output_ids cutoff c1.outputs)) [
          | inl e ↦ rw (delete_output_batches, t, e) q1
          | inr (k, ks, e) ↦
              let done = output_transaction b.transaction (k ∷ ks) c2 q2 in
              elim (Option-cases (stale_outputs b.transaction (k ∷ ks) c2)) [
                | inl d ↦ rw (delete_output_batches, t, e, d) q2
                | inr ((m, rows), d) ↦
                    rw (delete_output_batches, t, e, d)
                      (output_batches batches h left (n + 1) (total + m)
                        (record c2 { outputs = rows }) (rw d at done))
              ]
        ]
      ]

  pub prune_old_entries-Kept :
      (entry_rounds output_rounds : ℕ → Batch)
      → Harmless Q entry_rounds
      → Harmless Q output_rounds
      → (fuel : ℕ) (c : Catalog) → Q c
      → KeptReaped Q (prune_old_entries entry_rounds output_rounds cutoff fuel c)
  unfolding prune_old_entries delete_accessed_before delete_stale_outputs
  prune_old_entries-Kept es os he ho fuel c q =
      let kept = entry_batches es he fuel 0 0 [] c q in
      elim (Bool-cases (eqb_ℤ cutoff (pos 0))) [
        | inl t ↦ rw (prune_old_entries, t) q
        | inr f ↦ elim (Option-cases (delete_stale_entries es cutoff fuel 0 [] 0 c)) [
          | inl e ↦ rw (prune_old_entries, f, delete_accessed_before, e) tt
          | inr (x, e) ↦
              let qx : Q x.catalog = rw e at kept in
              elim (Bool-cases x.failed) [
                | inl bad ↦ rw (prune_old_entries, f, delete_accessed_before, e, bad) qx
                | inr ok ↦
                    rw (prune_old_entries, f, delete_accessed_before, e, ok)
                      (output_batches os ho age_max_batches 0 0 x.catalog qx)
              ]
        ]
      ]
