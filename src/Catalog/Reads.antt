-- ===== src/Catalog/Reads.antt =====
-- What a lookup returns right after a put.
use gocachez.Prelude.{
  ℕ, ◌+◌, ◌≤◌, ◌≡◌, refl, ◌∙◌, false, some, List, [], ◌∷◌, inl, inr, All-imp, All-find, find,
  same_iff, same_refl, Option-cases, Bool-cases, arith,
}
use gocachez.Prelude.Int.{ℤ, pos}
use gocachez.Catalog.{
  Key, OutputRow, EntryRow, Catalog, Entry, found, check_tag, resolve, lookup_entry, output_tag,
  has_output_id, has_action_id, has_id, upsert_output, upsert_entry_row,
}
use gocachez.Catalog.Put.{entry_row, record_put}
use gocachez.Catalog.Tables.{
  Apart, find_test, find-append_miss, find-update_where, find-update_where_self, find-none_of_All,
}
use gocachez.Catalog.WellFormed.{Unlike, IsWellFormed}

-- The row found by its key is the row found by its id.
find-has_id :
    (key : Key) (xs : List OutputRow) (o : OutputRow)
    → Apart Unlike xs
    → find (has_output_id key) xs ≡ some o
    → find (has_id o.id) xs ≡ some o
unfolding find
find-has_id key [] o a h = ground arith
find-has_id key (x ∷ xs) o a h = elim (Bool-cases (has_output_id key x)) [
  | inl t ↦ ground (arith, t)
  | inr f ↦
      let later : find (has_output_id key) xs ≡ some o = ground arith in
      let ne = (All-find (Unlike x) (has_output_id key) xs o a.0 later).0 in
      ground (arith, ne, find-has_id key xs o a.1 later)
]

-- The row that the returned id finds.
upsert_output-find :
    (key : Key) (size csize : ℕ) (at : ℤ) (c : Catalog)
    → IsWellFormed c
    → (o : OutputRow) × (find
          (has_id (upsert_output key size csize at c).0)
          (upsert_output key size csize at c).1.outputs
        ≡ some o)
      × (o.output_id ≡ key)
      × (o.size ≡ size)
unfolding upsert_output
upsert_output-find key size csize at c w =
    elim (Option-cases (find (has_output_id key) c.outputs)) [
      | inl miss ↦
          rw (miss, upsert_output)
            (
              _,
              find-append_miss (has_id (c.sequence + 1)) c.outputs _
                  (find-none_of_All (has_id (c.sequence + 1)) c.outputs (
                    All-imp (λ o. o.id ≤ c.sequence) (λ o. has_id (c.sequence + 1) o ≡ false)
                      c.outputs (λ o h. ground arith) w.ids))
                  (ground arith),
              refl,
              refl,
            )
      | inr (o, hit) ↦
          rw (hit, upsert_output)
            (
              record o { size = size; compressed_size = csize; accessed_at = at },
              find-update_where (has_id o.id) (has_output_id key) _ c.outputs (λ _. refl)
                  ∙ rw
                      (
                        find-has_id key c.outputs o w.unlike hit,
                        find_test (has_output_id key) c.outputs o hit,
                      )
                      refl,
              (same_iff o.output_id key).0 (find_test (has_output_id key) c.outputs o hit),
              refl,
            )
    ]

upsert_entry_row-find :
    (row : EntryRow) (c : Catalog)
    → find (has_action_id row.action_id) (upsert_entry_row row c).entries ≡ some row
unfolding upsert_entry_row
upsert_entry_row-find row c = elim (Option-cases (find (has_action_id row.action_id) c.entries)) [
  | inl miss ↦
      rw (miss, upsert_entry_row)
        (find-append_miss (has_action_id row.action_id) c.entries row miss
          (same_refl row.action_id))
  | inr (e, hit) ↦
      rw (hit, upsert_entry_row)
        (find-update_where_self (has_action_id row.action_id) (λ _. row) c.entries e
          (λ _ _. same_refl row.action_id) hit)
]

pub outputs-upsert_entry_row :
    (row : EntryRow) (c : Catalog) → (upsert_entry_row row c).outputs ≡ c.outputs
unfolding upsert_entry_row
outputs-upsert_entry_row row c = ground arith

-- Right after a put, a lookup of its action finds the output that was put, with the size and the
-- creation time of the put. As in the source the compressed size and the access time are not read.
pub lookup-put :
    (e : Entry) {c : Catalog}
    → IsWellFormed c
    → lookup_entry e.action_id (record_put e c)
      ≡ found (record e { compressed_size = 0; accessed_at = pos 0 })
unfolding lookup_entry record_put resolve check_tag
lookup-put e {c} w =
    let (ref, c') = upsert_output e.output_id e.size e.compressed_size e.accessed_at c in
    let row = entry_row e ref in
    let (o, there, key, size) =
      upsert_output-find e.output_id e.size e.compressed_size e.accessed_at c w in
    rw (upsert_entry_row-find row c', outputs-upsert_entry_row row c')
      (rw (there, resolve) (ground (arith, key, size, same_refl (output_tag e.output_id))))
