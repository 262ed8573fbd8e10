-- ===== src/Refinement/Puts.antt =====
-- What a put is on the map.
use gocachez.Prelude.{
  ℕ, ◌≤◌, ◌≡◌, refl, ap, ◌∙◌, false, All-find, find, same, arith, Bool-cases, Option-cases, inl,
  inr,
}
use gocachez.Prelude.Int.{ℤ}
use gocachez.Catalog.{
  Key, EntryRow, Catalog, Entry, has_action_id, has_id, has_output_id, upsert_output,
  upsert_entry_row,
}
use gocachez.Catalog.Put.{entry_row, record_put}
use gocachez.Catalog.WellFormed.{IsWellFormed, IsSound}
use gocachez.Catalog.Found.{find-append_other, find-update_where_other}
use gocachez.Refinement.View.{key_of, named_by, named}
use gocachez.Refinement.Outputs.{key_of-update_where}
use gocachez.Refinement.Entries.{not_both}
use gocachez.Catalog.Reads.{outputs-upsert_entry_row}
use gocachez.Catalog.WellFormed.{entries-upsert_output}

-- An output that is put is found under no id that was handed out before.
key_of-upsert_output :
    (key : Key) (size csize : ℕ) (at : ℤ) (c : Catalog) (i : ℕ)
    → i ≤ c.sequence
    → key_of (find (has_id i) (upsert_output key size csize at c).1.outputs)
      ≡ key_of (find (has_id i) c.outputs)
unfolding upsert_output
key_of-upsert_output key size csize at c i h =
    elim (Option-cases (find (has_output_id key) c.outputs)) [
      | inl miss ↦
          rw (miss, upsert_output)
            (ap key_of (find-append_other (has_id i) c.outputs _ (ground (arith, h))))
      | inr (o, hit) ↦
          rw (hit, upsert_output)
            (key_of-update_where (has_output_id key)
              (λ r. record r { size = size; compressed_size = csize; accessed_at = at }) (λ r. refl)
              (λ r. refl) i c.outputs)
    ]

module _ (row : EntryRow) (c : Catalog) (a : Key) (other : same row.action_id a ≡ false) where
  find-upsert_entry_row :
      find (has_action_id a) (upsert_entry_row row c).entries ≡ find (has_action_id a) c.entries
  unfolding upsert_entry_row
  find-upsert_entry_row = elim (Option-cases (find (has_action_id row.action_id) c.entries)) [
    | inl miss ↦
        rw (miss, upsert_entry_row) (find-append_other (has_action_id a) c.entries row other)
    | inr (e, hit) ↦
        rw (hit, upsert_entry_row)
          (find-update_where_other (has_action_id a) (has_action_id row.action_id) (λ _. row)
            c.entries
            (λ x t. (
              elim (Bool-cases (has_action_id a x)) [
                | inr f ↦ f
                | inl h ↦ absurd (ground (arith, t, not_both a row.action_id x other h))
              ],
              other,
            )))
  ]

-- A put changes no other action.
pub named-record_put_other :
    (e : Entry) (c : Catalog) (a : Key)
    → IsWellFormed c
    → same e.action_id a ≡ false
    → named (record_put e c) a ≡ named c a
unfolding record_put named_by
named-record_put_other e c a w other =
    let r = upsert_output e.output_id e.size e.compressed_size e.accessed_at c in
    let row = entry_row e r.0 in
    let entries : find (has_action_id a) (upsert_entry_row row r.1).entries
        ≡ find (has_action_id a) c.entries =
      find-upsert_entry_row row r.1 a other
      ∙ ap (find (has_action_id a))
          (entries-upsert_output e.output_id e.size e.compressed_size e.accessed_at c) in
    ap (λ x. named_by x (upsert_entry_row row r.1).outputs) entries
    ∙ ap (named_by (find (has_action_id a) c.entries)) (outputs-upsert_entry_row row r.1)
    ∙ elim (Option-cases (find (has_action_id a) c.entries)) [
      | inl n ↦ rw n refl
      | inr (x, h) ↦
          rw (h, named_by)
            (key_of-upsert_output e.output_id e.size e.compressed_size e.accessed_at c x.output
              (All-find (IsSound c) (has_action_id a) c.entries x w.sound h).0)
    ]
