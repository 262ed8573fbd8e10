-- ===== src/Catalog/Put.antt =====
-- `upsertEntry`, `upsertEntryOnce` and `retrySQLiteBusy` of catalog.go. What the database does in
-- an attempt is an argument: where it fails, and whether a commit that reports a failure took
-- effect.
use gocachez.Prelude.{
  ℕ, zero, suc, ◌+◌, ◌%◌, Bool, false, not, ◌||◌, Option, none, some, ◌==◌, if◌then◌else◌,
}
use gocachez.Catalog.{Catalog, Entry, EntryRow, output_tag, upsert_output, upsert_entry_row}

-- An error of the driver with the result code of SQLite, or one that carries none.
pub data DbError : Type 0 where
  sqlite : ℕ → DbError
  context : DbError
  other : DbError

abbrev pub sqlite_busy_primary_code : ℕ
sqlite_busy_primary_code = 5

-- `isSQLiteBusy`: the low byte of the code.
unfoldable pub is_sqlite_busy : Option DbError → Bool
is_sqlite_busy (some (sqlite code)) = code % 256 == sqlite_busy_primary_code
is_sqlite_busy (some context) = false
is_sqlite_busy (some other) = false
is_sqlite_busy none = false

-- The entry that a put records, with the id that the output statement returned.
abbrev pub entry_row : Entry → ℕ → EntryRow
entry_row e ref = record {
  action_id = e.action_id;
  output = ref;
  output_tag = output_tag e.output_id;
  created_at = e.created_at;
  accessed_at = e.accessed_at;
}

-- Both statements of the transaction.
unfoldable pub record_put : Entry → Catalog → Catalog
record_put e c =
    let (ref, c') = upsert_output e.output_id e.size e.compressed_size e.accessed_at c in
    upsert_entry_row (entry_row e ref) c'

-- What each call to the database reports in one attempt.
pub record Attempt : Type 0 where
  pub begin_error : Option DbError
  pub output_error : Option DbError
  pub entry_error : Option DbError
  pub commit_error : Option DbError
  pub disputed : Bool

-- The error that is returned, and the tables after the attempt. A rollback leaves the tables as
-- they were at the begin.
unfoldable pub upsert_entry_once : Attempt → Entry → Catalog → Option DbError × Catalog
upsert_entry_once a e c = elim a.begin_error [
  | some err ↦ (some err, c)
  | none ↦ elim a.output_error [
    | some err ↦ (some err, c)
    | none ↦ elim a.entry_error [
      | some err ↦ (some err, c)
      | none ↦ elim a.commit_error [
        | some err ↦ (some err, if a.disputed then record_put e c else c)
        | none ↦ (none, record_put e c)
      ]
    ]
  ]
]

abbrev pub catalog_put_attempts : ℕ
catalog_put_attempts = 3

-- `retrySQLiteBusy`. `fn` is told the attempt, `cancelled` whether the context ends in the wait
-- after it. The attempts left count down with the loop, which returns at the last attempt.
module _ {S : Type 0} (cancelled : ℕ → Bool) (fn : ℕ → S → Option DbError × S) where
  unfoldable pub retry_from : ℕ → ℕ → S → Option DbError × S
  retry_from zero attempt s = (none, s)
  retry_from (suc left) attempt s =
      let (err, s') = fn attempt s in
      let rest = retry_from left (attempt + 1) s' in
      if not (is_sqlite_busy err) || attempt == catalog_put_attempts
      then (err, s')
      else if cancelled attempt
      then (some context, s')
      else rest

  unfoldable pub retry_sqlite_busy : S → Option DbError × S
  retry_sqlite_busy = retry_from catalog_put_attempts 1

-- `catalog.upsertEntry`, whose context is `context.Background()` in every call.
unfoldable pub upsert_entry : (ℕ → Attempt) → Entry → Catalog → Option DbError × Catalog
upsert_entry attempts e =
    retry_sqlite_busy (λ _. false) (λ attempt. upsert_entry_once (attempts attempt) e)
