-- ===== src/Store/Get.antt =====
-- `store.get`, `store.materialize`, `store.dropAction` and `store.markEntryAccess` of cache.go, and
-- `store.handle` of protocol.go.
use gocachez.Prelude.{
  Bool, true, not, Option, none, some, List, [], ◌∷◌, length, ◌==◌, if◌then◌else◌,
}
use gocachez.Prelude.Int.{ℤ, pos, leb_ℤ, ◌-ℤ◌}
use gocachez.Catalog.{
  Key, Catalog, Entry, no_rows, tag_mismatch, found, lookup_entry, delete_action, delete_output,
  touch_entry, touch_output,
}
use gocachez.Catalog.Put.{DbError}
use gocachez.Store.State.{
  Request, Response, Result, ok, fail, missing_action_id, io_failure, catalog_failure,
  unknown_command, Command, LivePath, response, update, update_live, Store, Codec, is_live,
  create_live_file, remove_live, set_materialized, delete_materialized,
}
use gocachez.Store.Put.{PutFaults, Body, put}

-- How `materialize` ends: a path, an error that means the blob is missing or bad, or another error.
pub data Materialized : Type 0 where
  at_path : LivePath → Materialized
  bad_blob : Materialized
  failure : Materialized

-- Where the calls of one get fail, and the time of day. `copy` is a read of the blob or a write of
-- the live file: the source takes either for a bad blob.
pub record GetFaults : Type 0 where
  pub lookup : Option DbError
  pub forget : Bool
  pub live_file : Bool
  pub open_blob : Bool
  pub decoder : Bool
  pub body_file : Bool
  pub copy : Bool
  pub close_body : Bool
  pub remove : Bool
  pub unlink : Bool
  pub drop_output : Bool
  pub drop_entry : Bool
  pub flush : Bool
  pub now : ℤ

-- `dropAction` of the store: the blob goes first, then the row of the output and the entry. An
-- error, which the caller only logs, ends it where it stands.
unfoldable pub drop_bad : GetFaults → Key → Key → Store → Store
drop_bad f action key st =
    if f.unlink
    then st
    else let st1 : Store = record st { blobs = update key none st.blobs } in
      if f.drop_output
      then st1
      else let st2 : Store = record st1 { catalog = delete_output key st1.catalog } in
        if f.drop_entry
        then st2
        else delete_materialized key (record st2 { catalog = delete_action action st2.catalog })

-- `accessFlushInterval` in milliseconds, the unit of `access_flushed` here.
abbrev pub access_flush_interval : ℤ
access_flush_interval = pos 30000

-- `touchAll`, oldest access first, so that the latest access of a key is what remains.
unfoldable pub touch_entries : List (Key × ℤ) → Catalog → Catalog
touch_entries [] c = c
touch_entries ((k, at) ∷ l) c = touch_entry k at (touch_entries l c)

unfoldable pub touch_outputs : List (Key × ℤ) → Catalog → Catalog
touch_outputs [] c = c
touch_outputs ((k, at) ∷ l) c = touch_output k at (touch_outputs l c)

-- `flushAccessTimes`: one transaction. When it fails the batch is put back.
unfoldable pub flush_access_times : Bool → Store → Store
flush_access_times failed st = if failed then st else record st {
  catalog = touch_outputs st.accessed_outputs (touch_entries st.accessed st.catalog);
  accessed = [];
  accessed_outputs = [];
}

-- `markEntryAccess`
unfoldable pub mark_entry_access : Bool → ℤ → Key → Key → Store → Store
mark_entry_access failed now action key st =
    let noted : Store = record st {
      accessed = (action, now) ∷ st.accessed;
      accessed_outputs = (key, now) ∷ st.accessed_outputs;
    } in
    if leb_ℤ access_flush_interval (now -ℤ st.access_flushed)
    then flush_access_times failed (record noted { access_flushed = now })
    else noted

-- The answer to a hit, and the access that is noted.
unfoldable pub answer : GetFaults → Request → Entry → LivePath → Store → Result × Store
answer f req ent path st = (
  ok (record (response req.id) {
    output_id = some ent.output_id;
    size = ent.size;
    time = some ent.created_at;
    disk_path = some path;
  }),
  mark_entry_access f.flush f.now req.action_id ent.output_id st,
)

abbrev pub miss : Request → Result
miss req = ok (record (response req.id) { miss = true })

unfoldable pub after_materialize :
    GetFaults → Request → Entry → Materialized × Store → Result × Store
after_materialize f req ent (at_path path, st) =
    answer f req ent path (set_materialized ent.output_id path st)
after_materialize f req ent (bad_blob, st) = (miss req, drop_bad f req.action_id ent.output_id st)
after_materialize f req ent (failure, st) = (fail io_failure, st)

-- The path that an earlier request of the run made, if the file is still there.
unfoldable pub known_path : Key → Store → Option LivePath
known_path key st = elim (st.materialized key) [
  | none ↦ none
  | some path ↦ if is_live st path then some path else none
]

-- `handle`: an error is reported in a response with the request's number.
unfoldable pub report : Request → Result → Response
report req (ok res) = res
report req (fail e) = record (response req.id) { err = some e }

module _ (codec : Codec) where
  -- From the open of the blob on; `path` is the new live file, removed unless it is returned.
  unfoldable pub decompress_to : GetFaults → Entry → LivePath → Store → Materialized × Store
  decompress_to f ent path st =
      if f.open_blob
      then (failure, remove_live f.remove path st)
      else elim (st.blobs ent.output_id) [
        | none ↦ (bad_blob, remove_live f.remove path st)
        | some blob ↦
            if f.decoder
            then (bad_blob, remove_live f.remove path st)
            else if f.body_file
            then (failure, remove_live f.remove path st)
            else elim (codec.decompress blob) [
              | none ↦ (bad_blob, remove_live f.remove path st)
              | some content ↦
                  if f.copy
                  then (bad_blob, remove_live f.remove path st)
                  else if f.close_body
                  then (failure, remove_live f.remove path st)
                  else if not (length content == ent.size)
                  then (bad_blob, remove_live f.remove path st)
                  else (at_path path, record st { live = update_live path (some content) st.live })
            ]
      ]

  unfoldable pub materialize_in : GetFaults → Entry → Option LivePath × Store → Materialized × Store
  materialize_in f ent (none, st) = (failure, st)
  materialize_in f ent (some path, st) = decompress_to f ent path st

  -- `materialize`
  unfoldable pub materialize : GetFaults → Entry → Store → Materialized × Store
  materialize f ent st = materialize_in f ent (create_live_file f.live_file st)

  unfoldable pub get_found : GetFaults → Request → Entry → Store → Result × Store
  get_found f req ent st = elim (known_path ent.output_id st) [
    | some path ↦ answer f req ent path st
    | none ↦ after_materialize f req ent (materialize f ent st)
  ]

  -- `get`
  unfoldable pub get : GetFaults → Request → Store → Result × Store
  get f req st = if length req.action_id == 0 then (fail missing_action_id, st) else elim f.lookup [
    | some err ↦ (fail (catalog_failure err), st)
    | none ↦ elim (lookup_entry req.action_id st.catalog) [
      | no_rows ↦ (miss req, st)
      | tag_mismatch ↦ (
        miss req,
        if f.forget then st else record st { catalog = delete_action req.action_id st.catalog },
      )
      | found ent ↦ get_found f req ent st
    ]
  ]

  unfoldable pub handle : PutFaults → GetFaults → Body → Request → Store → Response × Store
  handle pf gf body req st = elim req.command [
    | Command.put ↦ let (r, st') = put codec pf body req st in (report req r, st')
    | Command.get ↦ let (r, st') = get gf req st in (report req r, st')
    | Command.close ↦ (response req.id, st)
    | Command.unknown ↦ (report req (fail unknown_command), st)
  ]
