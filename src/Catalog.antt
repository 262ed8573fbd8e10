-- ===== src/Catalog.antt =====
-- catalog.go: the SQLite catalog. Each SQL statement of the source is a function on the tables of
-- `catalogSchema` (store.go), which are lists of rows in insertion order.
pub mod Tables
pub mod Found
pub mod WellFormed
pub mod Disputed
pub mod Put
pub mod Steps
pub mod Invariant
pub mod Soft
pub mod Retry
pub mod Reads
pub mod Listing
use gocachez.Prelude.{
  ℕ, zero, suc, ◌+◌, ◌%◌, ◌<◌, min, String, ◌≡◌, Bool, true, false, not, ◌&&◌, Option, none, some,
  List, [], ◌∷◌, ◌++◌, map, Bytes, same, length, take, select, find, ◌==◌, ltb, leb, if◌then◌else◌,
}
use text.Mathlib.Text.{◌==◌ as str_eq}
use gocachez.Prelude.Int.{ℤ, pos, ltb_ℤ, leb_ℤ, eqb_ℤ}

-- A raw digest: an action ID or an output ID.
abbrev pub Key : Type 0
Key = Bytes

-- A row of the table `outputs`.
pub record OutputRow : Type 0 where
  pub id : ℕ
  pub output_id : Key
  pub size : ℕ
  pub compressed_size : ℕ
  pub accessed_at : ℤ
  pub blob_type : Option ℕ
  pub blob_type_version : Option ℕ
  pub retained_type : Option ℕ
  pub retained_type_version : Option ℕ

-- A row of the table `entries`.
pub record EntryRow : Type 0 where
  pub action_id : Key
  pub output : ℕ
  pub output_tag : Key
  pub created_at : ℤ
  pub accessed_at : ℤ

-- A row of the table `runs`.
pub record RunRow : Type 0 where
  pub run_id : String
  pub path : String
  pub created_at : ℤ

-- The database. `sequence` is the row of `sqlite_sequence` that AUTOINCREMENT keeps for `outputs`:
-- the largest id ever handed out.
pub record Catalog : Type 0 where
  pub outputs : List OutputRow
  pub entries : List EntryRow
  pub runs : List RunRow
  pub sequence : ℕ

-- What `newStore` finds in a new cache.
abbrev pub init : Catalog
init = record { outputs = []; entries = []; runs = []; sequence = 0 }

-- The Go struct `entry`, with its IDs as digests.
pub record Entry : Type 0 where
  pub action_id : Key
  pub output_id : Key
  pub size : ℕ
  pub compressed_size : ℕ
  pub created_at : ℤ
  pub accessed_at : ℤ

abbrev pub output_tag_len : ℕ
output_tag_len = 4

unfoldable pub output_tag : Key → Key
output_tag key = take (min output_tag_len (length key)) key

-- UPDATE … SET f WHERE p
unfoldable pub update_where {ℓ} : {A : Type ℓ} → (A → Bool) → (A → A) → List A → List A
update_where p f = map (λ r. if p r then f r else r)

-- DELETE … WHERE p
unfoldable pub delete_where {ℓ} : {A : Type ℓ} → (A → Bool) → List A → List A
delete_where p = select (λ r. not (p r))

abbrev pub has_output_id : Key → OutputRow → Bool
has_output_id key o = same o.output_id key

abbrev pub has_id : ℕ → OutputRow → Bool
has_id i o = o.id == i

abbrev pub has_action_id : Key → EntryRow → Bool
has_action_id key e = same e.action_id key

-- `upsertOutputSQL`: a conflict refreshes the sizes and the access time and keeps the id and the
-- classifications; a new row takes the next id. It returns the id.
unfoldable pub upsert_output : Key → ℕ → ℕ → ℤ → Catalog → ℕ × Catalog
upsert_output key size csize at c = elim (find (has_output_id key) c.outputs) [
  | none ↦
      let row : OutputRow = record {
        id = c.sequence + 1;
        output_id = key;
        size = size;
        compressed_size = csize;
        accessed_at = at;
        blob_type = none;
        blob_type_version = none;
        retained_type = none;
        retained_type_version = none;
      } in
      (c.sequence + 1, record c { outputs = c.outputs ++ row ∷ []; sequence = c.sequence + 1 })
  | some o ↦ (
    o.id,
    record c {
      outputs =
          update_where (has_output_id key)
            (λ r. record r { size = size; compressed_size = csize; accessed_at = at }) c.outputs;
    },
  )
]

-- `upsertEntrySQL`
unfoldable pub upsert_entry_row : EntryRow → Catalog → Catalog
upsert_entry_row row c = elim (find (has_action_id row.action_id) c.entries) [
  | none ↦ record c { entries = c.entries ++ row ∷ [] }
  | some _ ↦ record c { entries = update_where (has_action_id row.action_id) (λ _. row) c.entries }
]

-- `DELETE FROM entries WHERE action_id = ?`
unfoldable pub delete_action : Key → Catalog → Catalog
delete_action action c = record c { entries = delete_where (has_action_id action) c.entries }

-- `DELETE FROM outputs WHERE output_id = ?`
unfoldable pub delete_output : Key → Catalog → Catalog
delete_output key c = record c { outputs = delete_where (has_output_id key) c.outputs }

-- `lookupEntry`: the rows of the join, and the check of the tag.
pub data Lookup : Type 0 where
  no_rows : Lookup
  tag_mismatch : Lookup
  found : Entry → Lookup

unfoldable pub check_tag : EntryRow → OutputRow → Lookup
check_tag e o =
    if same e.output_tag (output_tag o.output_id)
    then found (record {
      action_id = e.action_id;
      output_id = o.output_id;
      size = o.size;
      compressed_size = 0;
      created_at = e.created_at;
      accessed_at = pos 0;
    })
    else tag_mismatch

unfoldable pub resolve : Option EntryRow → List OutputRow → Lookup
resolve none outputs = no_rows
resolve (some e) outputs = elim (find (has_id e.output) outputs) [
  | none ↦ no_rows
  | some o ↦ check_tag e o
]

unfoldable pub lookup_entry : Key → Catalog → Lookup
lookup_entry action c = resolve (find (has_action_id action) c.entries) c.outputs

-- `touchEntrySQL` and `touchOutputSQL`
unfoldable pub touch_entry : Key → ℤ → Catalog → Catalog
touch_entry action at c = record c {
  entries = update_where (has_action_id action) (λ e. record e { accessed_at = at }) c.entries;
}

unfoldable pub touch_output : Key → ℤ → Catalog → Catalog
touch_output key at c = record c {
  outputs = update_where (has_output_id key) (λ o. record o { accessed_at = at }) c.outputs;
}

-- `evictOutput`: whether a row was deleted, and the tables after it.
unfoldable pub evict_output : Key → ℤ → Catalog → Bool × Catalog
evict_output key at c =
    let doomed : OutputRow → Bool = λ o. has_output_id key o && leb_ℤ o.accessed_at at in
    (ltb 0 (length (select doomed c.outputs)), record c { outputs = delete_where doomed c.outputs })

-- `updateBlobTypeSQL` and `updateRetainedTypeSQL`
unfoldable pub update_blob_type : Key → ℕ → ℕ → Catalog → Catalog
update_blob_type key kind version c = record c {
  outputs =
      update_where (has_output_id key)
        (λ o. record o { blob_type = some kind; blob_type_version = some version }) c.outputs;
}

unfoldable pub update_retained_type : Key → ℕ → ℕ → Catalog → Catalog
update_retained_type key kind version c = record c {
  outputs =
      update_where (has_output_id key)
        (λ o. record o { retained_type = some kind; retained_type_version = some version })
        c.outputs;
}

-- `registerRun`, `deleteRun`, `countRuns` and `listOtherRuns`
abbrev pub has_run_id : String → RunRow → Bool
has_run_id run r = str_eq r.run_id run

unfoldable pub register_run : String → String → ℤ → Catalog → Catalog
register_run run path at c = record c {
  runs =
      delete_where (has_run_id run) c.runs
      ++ record { run_id = run; path = path; created_at = at } ∷ [];
}

unfoldable pub delete_run : String → Catalog → Catalog
delete_run run c = record c { runs = delete_where (has_run_id run) c.runs }

unfoldable pub count_runs : Catalog → ℕ
count_runs c = length c.runs

unfoldable pub list_other_runs : String → Catalog → List RunRow
list_other_runs run c = delete_where (has_run_id run) c.runs

-- `dropAction`, when both statements succeed
unfoldable pub drop_action : Key → Key → Catalog → Catalog
unfolding delete_action delete_output
drop_action action key c = delete_action action (delete_output key c)
