-- ===== src/Catalog/Retry.antt =====
-- What a put leaves in the tables when the database fails, retries and disputed commits included.
use gocachez.Prelude.{
  ℕ, zero, suc, ◌+◌, ◌≡◌, refl, ap, ◌∙◌, ◌≢◌, ◌⊎◌, ◌||◌, not, true, false, Option, none, some, List,
  inl, inr, All, find, same_refl, Option-cases, Bool-cases, arith, ◌==◌,
}
use gocachez.Prelude.Int.{ℤ}
use gocachez.Catalog.{
  Key, OutputRow, EntryRow, Catalog, Entry, has_output_id, has_action_id, upsert_output,
  upsert_entry_row,
}
use gocachez.Catalog.Put.{
  DbError, Attempt, entry_row, record_put, upsert_entry_once, is_sqlite_busy, catalog_put_attempts,
  retry_from, retry_sqlite_busy, upsert_entry,
}
use gocachez.Catalog.Tables.{
  find-append_miss, find-update_where_self, Fixes, update_where_fixed, Fixes-update_where,
  Fixes-append,
}

abbrev IsRow : EntryRow → Catalog → Type 0
IsRow row c =
    ((e : EntryRow) × (find (has_action_id row.action_id) c.entries ≡ some e))
    × All (Fixes (has_action_id row.action_id) (λ _. row)) c.entries

module _ (row : EntryRow) (c : Catalog) where
  upsert_entry_row_hit : IsRow row c → upsert_entry_row row c ≡ c
  unfolding upsert_entry_row
  upsert_entry_row_hit ((e, hit), a) =
      rw (hit, upsert_entry_row)
        (ap (λ (es : List EntryRow). record c { entries = es })
          (update_where_fixed (has_action_id row.action_id) (λ _. row) c.entries a))

  upsert_entry_row-IsRow : IsRow row (upsert_entry_row row c)
  unfolding upsert_entry_row
  upsert_entry_row-IsRow = elim (Option-cases (find (has_action_id row.action_id) c.entries)) [
    | inl miss ↦
        rw (miss, upsert_entry_row)
          (
            (
              row,
              find-append_miss (has_action_id row.action_id) c.entries row miss
                  (same_refl row.action_id),
            ),
            Fixes-append (has_action_id row.action_id) (λ _. row) c.entries row miss refl,
          )
    | inr (e, hit) ↦
        rw (hit, upsert_entry_row)
          (
            (
              row,
              find-update_where_self (has_action_id row.action_id) (λ _. row) c.entries e
                  (λ _ _. same_refl row.action_id) hit,
            ),
            Fixes-update_where (has_action_id row.action_id) (λ _. row) c.entries (λ _. refl),
          )
  ]

module _ (key : Key) (size csize : ℕ) (at : ℤ) where
  abbrev refresh : OutputRow → OutputRow
  refresh r = record r { size = size; compressed_size = csize; accessed_at = at }

  -- The row of `outputs` is there under the id, and a further put of it changes nothing.
  abbrev IsOutput : ℕ → Catalog → Type 0
  IsOutput ref c =
      ((o : OutputRow) × (find (has_output_id key) c.outputs ≡ some o) × (o.id ≡ ref))
      × All (Fixes (has_output_id key) refresh) c.outputs

  upsert_output_hit :
      (ref : ℕ) (c : Catalog) → IsOutput ref c → upsert_output key size csize at c ≡ (ref, c)
  unfolding upsert_output
  upsert_output_hit ref c ((o, hit, id), a) =
      rw (hit, upsert_output)
        (cc (
          id,
          ap (λ (os : List OutputRow). record c { outputs = os })
              (update_where_fixed (has_output_id key) refresh c.outputs a),
        ))

  upsert_output-IsOutput :
      (c : Catalog)
      → IsOutput (upsert_output key size csize at c).0 (upsert_output key size csize at c).1
  unfolding upsert_output
  upsert_output-IsOutput c = elim (Option-cases (find (has_output_id key) c.outputs)) [
    | inl miss ↦
        rw (miss, upsert_output)
          (
            (_, find-append_miss (has_output_id key) c.outputs _ miss (same_refl key), refl),
            Fixes-append (has_output_id key) refresh c.outputs _ miss refl,
          )
    | inr (o, hit) ↦
        rw (hit, upsert_output)
          (
            (
              refresh o,
              find-update_where_self (has_output_id key) refresh c.outputs o (λ _ t. t) hit,
              refl,
            ),
            Fixes-update_where (has_output_id key) refresh c.outputs (λ _. refl),
          )
  ]

outputs-upsert_entry_row :
    (row : EntryRow) (c : Catalog) → (upsert_entry_row row c).outputs ≡ c.outputs
unfolding upsert_entry_row
outputs-upsert_entry_row row c = ground arith

-- Recording the same put twice is recording it once.
pub record_put_idem : (e : Entry) (c : Catalog) → record_put e (record_put e c) ≡ record_put e c
unfolding record_put
record_put_idem e c =
    let r = upsert_output e.output_id e.size e.compressed_size e.accessed_at c in
    let row = entry_row e r.0 in
    let c' = upsert_entry_row row r.1 in
    let again = upsert_output_hit e.output_id e.size e.compressed_size e.accessed_at r.0 c' (
      rw (outputs-upsert_entry_row row r.1)
        (upsert_output-IsOutput e.output_id e.size e.compressed_size e.accessed_at c)) in
    ap (λ (p : ℕ × Catalog). upsert_entry_row (entry_row e p.0) p.1) again
    ∙ upsert_entry_row_hit row c' (upsert_entry_row-IsRow row r.1)

-- Either nothing of the put is in the tables, or all of it.
abbrev pub Untorn : Entry → Catalog → Catalog → Type 0
Untorn e c c' = (c' ≡ c) ⊎ (c' ≡ record_put e c)

-- A reported success means that all of it is.
pub record Outcome (e : Entry) (c : Catalog) (r : Option DbError × Catalog) : Type 0 where
  pub untorn : Untorn e c r.1
  pub recorded : r.0 ≡ none → r.1 ≡ record_put e c

record_put-Untorn : (e : Entry) (c s : Catalog) → Untorn e c s → record_put e s ≡ record_put e c
record_put-Untorn e c s (inl same_tables) = ap (record_put e) same_tables
record_put-Untorn e c s (inr put_tables) = ap (record_put e) put_tables ∙ record_put_idem e c

-- An attempt leaves the tables as they were, or records the put; if it succeeds, it did.
once_cases :
    (a : Attempt) (e : Entry) (s : Catalog)
    → (((upsert_entry_once a e s).1 ≡ s) × ((upsert_entry_once a e s).0 ≢ none))
      ⊎ ((upsert_entry_once a e s).1 ≡ record_put e s)
unfolding upsert_entry_once
once_cases a e s = ground arith

once-Outcome :
    (a : Attempt) (e : Entry) (c s : Catalog) → Untorn e c s → Outcome e c (upsert_entry_once a e s)
once-Outcome a e c s u = elim (once_cases a e s) [
  | inl (kept, failed) ↦ record { untorn = rw kept u; recorded = λ ok. absurd (failed ok) }
  | inr done ↦
      let all = done ∙ record_put-Untorn e c s u in record { untorn = inr all; recorded = λ _. all }
]

-- The loop has a round left for every attempt up to the third, which ends it.
retry-Outcome :
    (attempts : ℕ → Attempt) (e : Entry) (c : Catalog) (left attempt : ℕ) (s : Catalog)
    → suc left + attempt ≡ catalog_put_attempts + 1
    → Untorn e c s
    → Outcome e c
        (retry_from (λ _. false) (λ n. upsert_entry_once (attempts n) e) (suc left) attempt s)
unfolding retry_from
retry-Outcome attempts e c zero attempt s n u =
    rw (last_attempt (upsert_entry_once (attempts attempt) e s).0)
      (once-Outcome (attempts attempt) e c s u)
  where
    last_attempt : (err : Option DbError) → (not (is_sqlite_busy err) || attempt == 3) ≡ true
    last_attempt err = ground arith
retry-Outcome attempts e c (suc left) attempt s n u =
    let one = once-Outcome (attempts attempt) e c s u in
    let err = (upsert_entry_once (attempts attempt) e s).0 in
    elim (Bool-cases (not (is_sqlite_busy err) || attempt == catalog_put_attempts)) [
      | inl last ↦ rw last one
      | inr again ↦ rw again (
          retry-Outcome attempts e c left (attempt + 1) (upsert_entry_once (attempts attempt) e s).1
            (omega arith) one.untorn)
    ]

-- A put is all or nothing. Whatever the database reports at the begin, at either statement or at
-- the commit of each of the three attempts, and whether or not a commit that reports a failure
-- took effect, the tables are those before the put or those with the whole put recorded once; and
-- if `upsertEntry` returns no error, the put is recorded.
pub upsert_entry-Outcome :
    (attempts : ℕ → Attempt) (e : Entry) (c : Catalog) → Outcome e c (upsert_entry attempts e c)
unfolding upsert_entry retry_sqlite_busy
upsert_entry-Outcome attempts e c = retry-Outcome attempts e c 2 1 c refl (inl refl)
