-- ===== src/Store/Put.antt =====
-- `store.put` of cache.go.
use gocachez.Prelude.{
  ℕ, ◌+◌, Bool, true, false, not, ◌||◌, Option, none, some, Bytes, length, ◌==◌, if◌then◌else◌,
}
use gocachez.Prelude.Int.{ℤ, pos, eqb_ℤ}
use gocachez.Catalog.{Key, Entry}
use gocachez.Catalog.Put.{Attempt, upsert_entry}
use gocachez.Store.State.{
  Request, Result, ok, fail, missing_action_id, missing_output_id, body_refused, body_broken,
  io_failure, size_mismatch, catalog_failure, LivePath, response, update, update_live, Store, Codec,
  create_live_file, remove_live, set_materialized,
}

-- What `bodyReader` and the reads from it give: a refusal, a failure after some bytes, or all of
-- the decoded body.
pub data Body : Type 0 where
  refused : Body
  broken : Bytes → Body
  full : Bytes → Body

-- How installing a blob ends. `vanishes` is that another process removed the blob after it was seen
-- and before it was stamped. `overtaken` is that the rename fails because another put of the same
-- content, whose blob is the same, has put its own in place. `stat_fails` is a file that is in place
-- and cannot be measured.
pub data Install : Type 0 where
  installs vanishes overtaken rename_fails stat_fails : Install

-- Where the calls of one put fail, and the time of day.
pub record PutFaults : Type 0 where
  pub blob_dir : Bool
  pub live_file : Bool
  pub pending_file : Bool
  pub body_file : Bool
  pub encoder : Bool
  pub finish : Bool
  pub remove : Bool
  pub install : Install
  pub attempts : ℕ → Attempt
  pub now : ℤ

-- The entry that a put records for a body of which the blob takes `size` bytes.
abbrev pub entry_of : PutFaults → Request → Bytes → ℕ → Entry
entry_of f req content size = record {
  action_id = req.action_id;
  output_id = req.output_id;
  size = length content;
  compressed_size = size;
  created_at = f.now;
  accessed_at = f.now;
}

-- From the catalog write on.
unfoldable pub record_body : PutFaults → Request → LivePath → Bytes → ℕ → Store → Result × Store
record_body f req path content size st =
    let (err, catalog) = upsert_entry f.attempts (entry_of f req content size) st.catalog in
    let st' : Store = record st { catalog = catalog } in
    elim err [
      | some e ↦ (fail (catalog_failure e), remove_live f.remove path st')
      | none ↦ (
        ok (record (response req.id) { disk_path = some path }),
        set_materialized req.output_id path st',
      )
    ]

abbrev pub is_refused : Body → Bool
is_refused refused = true
is_refused (broken part) = false
is_refused (full content) = false

module _ (codec : Codec) where
  -- `installBlobLocked`: a blob that is there already is adopted, otherwise the pending file takes
  -- its place. The size of the blob that is there afterwards, or an error.
  unfoldable pub install_blob : Install → Key → Bytes → Store → Option ℕ × Store
  install_blob outcome key content st =
      let zst = codec.compress content in
      let st' : Store = record st { blobs = update key (some zst) st.blobs } in
      elim (st.blobs key) [
        | some blob ↦ elim outcome [
          | installs ↦ (some (length blob), st)
          | vanishes ↦ (some (length zst), st')
          | overtaken ↦ (some (length blob), st)
          | rename_fails ↦ (none, st)
          | stat_fails ↦ (none, st)
        ]
        | none ↦ elim outcome [
          | installs ↦ (some (length zst), st')
          | vanishes ↦ (some (length zst), st')
          | overtaken ↦ (some (length zst), st')
          | rename_fails ↦ (none, st)
          | stat_fails ↦ (none, st')
        ]
      ]

  unfoldable pub install_body : PutFaults → Request → LivePath → Bytes → Store → Result × Store
  install_body f req path content st =
      let (installed, st') = install_blob f.install req.output_id content st in
      elim installed [
        | none ↦ (fail io_failure, remove_live f.remove path st')
        | some size ↦
            record_body f req path content size (record st' { installed = st'.installed + size })
      ]

  -- The streams are copied and closed before the first error is looked at. What the copy wrote to
  -- the live file stays there until the deferred removal.
  unfoldable pub stream_body : PutFaults → Request → LivePath → Body → Store → Result × Store
  stream_body f req path refused st = (fail body_refused, remove_live f.remove path st)
  stream_body f req path (broken part) st = (fail body_broken, remove_live f.remove path st)
  stream_body f req path (full content) st =
      let st' : Store = record st { live = update_live path (some content) st.live } in
      if f.finish
      then (fail io_failure, remove_live f.remove path st')
      else if not (eqb_ℤ (pos (length content)) req.body_size)
      then (fail size_mismatch, remove_live f.remove path st')
      else install_body f req path content st'

  unfoldable pub with_live_file :
      PutFaults → Request → Body → Option LivePath × Store → Result × Store
  with_live_file f req body (none, st) = (fail io_failure, st)
  with_live_file f req body (some path, st) =
      if f.pending_file || f.body_file || f.encoder
      then (fail io_failure, remove_live f.remove path st)
      else stream_body f req path body st

  -- The whole of `put`: what it returns, and the state that it leaves, its deferred calls included.
  unfoldable pub put : PutFaults → Body → Request → Store → Result × Store
  put f body req st =
      if length req.action_id == 0
      then (fail missing_action_id, st)
      else if length req.output_id == 0
      then (fail missing_output_id, st)
      else if is_refused body
      then (fail body_refused, st)
      else if f.blob_dir
      then (fail io_failure, st)
      else with_live_file f req body (create_live_file f.live_file st)
