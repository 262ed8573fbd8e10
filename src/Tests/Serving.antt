-- ===== src/Tests/Serving.antt =====
-- The theorems on `put` and `get` at a store without blobs.
use gocachez.Prelude.{◌≡◌, refl, none, some, [], ◌∷◌, false, Bytes, inl, same, find}
use gocachez.Prelude.Int.{pos}
use gocachez.Catalog.{
  init, Entry, found, lookup_entry, resolve, check_tag, output_tag, upsert_output, upsert_entry_row,
}
use gocachez.Catalog.Put.{
  upsert_entry, upsert_entry_once, retry_sqlite_busy, retry_from, is_sqlite_busy, record_put,
}
use gocachez.Catalog.WellFormed.{init-IsWellFormed}
use gocachez.Store.State.{
  Command, Request, Response, ok, Store, Codec, create_live_file, set_materialized,
}
use gocachez.Store.Put.{
  PutFaults, broken, full, installs, record_body, install_blob, install_body, stream_body,
  with_live_file, put,
}
use gocachez.Store.Get.{GetFaults, known_path, get, handle}
use gocachez.Store.Serve.{Hit, get-put}
use gocachez.Store.Success.{Clear, Succeeded, put-Stored}
use gocachez.Store.Heal.{Dropped, get-Dropped}
use gocachez.Store.Answers.{id-handle}

abbrev plain : Codec
plain = record { compress = λ c. c; decompress = λ c. some c; decompress-compress = λ _. refl }

abbrev empty_store : Store
empty_store = record {
  catalog = init;
  blobs = λ _. none;
  live = λ _. none;
  next_path = 0;
  materialized = λ _. none;
  accessed = [];
  accessed_outputs = [];
  access_flushed = pos 0;
  installed = 0;
}

abbrev no_put_faults : PutFaults
no_put_faults = record {
  blob_dir = false;
  live_file = false;
  pending_file = false;
  body_file = false;
  encoder = false;
  finish = false;
  remove = false;
  install = installs;
  attempts = λ _. record {
    begin_error = none;
    output_error = none;
    entry_error = none;
    commit_error = none;
    disputed = false;
  };
  now = pos 1000;
}

abbrev no_get_faults : GetFaults
no_get_faults = record {
  lookup = none;
  forget = false;
  live_file = false;
  open_blob = false;
  decoder = false;
  body_file = false;
  copy = false;
  close_body = false;
  remove = false;
  unlink = false;
  drop_output = false;
  drop_entry = false;
  flush = false;
  now = pos 2000;
}

abbrev body : Bytes
body = 104 ∷ 105 ∷ []

abbrev put_request : Request
put_request = record {
  id = pos 1;
  command = Command.put;
  action_id = 1 ∷ 2 ∷ [];
  output_id = 7 ∷ 8 ∷ 9 ∷ 10 ∷ 11 ∷ [];
  body_size = pos 2;
}

abbrev get_request : Request
get_request = record put_request { id = pos 2; command = Command.get; output_id = [] }

abbrev put_answer : Response
put_answer = record {
  id = pos 1;
  err = none;
  miss = false;
  output_id = none;
  size = 0;
  time = none;
  disk_path = some 0;
}

abbrev served : Store
served = (put plain no_put_faults (full body) put_request empty_store).1

-- The put is answered with the path of its file.
put_answered : put plain no_put_faults (full body) put_request empty_store ≡ (ok put_answer, served)
unfolding put with_live_file create_live_file stream_body install_body install_blob record_body
    upsert_entry retry_sqlite_busy retry_from is_sqlite_busy upsert_entry_once
put_answered = refl

-- A later run: the same catalog and blobs, an empty run directory.
abbrev next_run : Store
next_run = record empty_store { catalog = served.catalog; blobs = served.blobs }

get-put_example :
    Hit get_request
      (record {
        action_id = put_request.action_id;
        output_id = put_request.output_id;
        size = 2;
        compressed_size = 0;
        created_at = pos 1000;
        accessed_at = pos 0;
      })
      body
      (get plain no_get_faults get_request next_run)
get-put_example =
    get-put plain no_put_faults no_get_faults put_request get_request body empty_store served
      next_run put_answer init-IsWellFormed (λ blob h. absurd (cc)) put_answered
      (record {
        lookup = refl;
        live_file = refl;
        open_blob = refl;
        decoder = refl;
        body_file = refl;
        copy = refl;
        close_body = refl;
      })
      refl refl refl refl

abbrev after_broken : Store
after_broken = (put plain no_put_faults (broken (104 ∷ [])) put_request empty_store).1

all-Clear : Clear no_put_faults
all-Clear = record {
  blob_dir = refl;
  live_file = refl;
  pending_file = refl;
  body_file = refl;
  encoder = refl;
  finish = refl;
  install = refl;
  begin_error = refl;
  output_error = refl;
  entry_error = refl;
  commit_error = refl;
}

put-Stored_example :
    (r : Response) × (st' : Store) × (put plain no_put_faults (full body) put_request empty_store
      ≡ (ok r, st'))
    × Succeeded plain no_put_faults put_request body empty_store st' r
put-Stored_example =
    put-Stored plain no_put_faults put_request body empty_store all-Clear refl refl refl

-- The next run finds the catalog, but the blob is gone.
abbrev lost_blob : Store
lost_blob = record next_run { blobs = λ _. none }

abbrev served_entry : Entry
served_entry = record {
  action_id = put_request.action_id;
  output_id = put_request.output_id;
  size = 2;
  compressed_size = 0;
  created_at = pos 1000;
  accessed_at = pos 0;
}

looked_up : lookup_entry get_request.action_id lost_blob.catalog ≡ found served_entry
unfolding lookup_entry resolve check_tag output_tag record_put upsert_output upsert_entry_row same
    find put with_live_file create_live_file stream_body install_body install_blob record_body
    upsert_entry retry_sqlite_busy retry_from is_sqlite_busy upsert_entry_once set_materialized
looked_up = refl

get-Dropped_example :
    Dropped no_get_faults get_request served_entry lost_blob
      (get plain no_get_faults get_request lost_blob)
get-Dropped_example =
    get-Dropped plain no_get_faults get_request served_entry lost_blob
      (record {
        lookup = refl;
        live_file = refl;
        open_blob = refl;
        body_file = refl;
        close_body = refl;
      })
      refl looked_up (unfold known_path in refl) (inl refl)

id-handle_example :
    (handle plain no_put_faults no_get_faults (full body) put_request empty_store).0.id ≡ pos 1
id-handle_example = id-handle plain put_request no_put_faults no_get_faults (full body) empty_store
