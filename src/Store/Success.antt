-- ===== src/Store/Success.antt =====
-- A put that meets no failure.
use gocachez.Prelude.{
  ℕ, ◌+◌, ◌≡◌, refl, ◌∙◌, ◌⊎◌, inl, inr, true, false, none, some, [], Bytes, length, ◌==◌, arith,
  Option-cases,
}
use gocachez.Prelude.Int.{pos, eqb_ℤ}
use gocachez.Catalog.{Catalog, Entry}
use gocachez.Catalog.Put.{
  Attempt, upsert_entry, upsert_entry_once, retry_from, retry_sqlite_busy, is_sqlite_busy,
  record_put,
}
use gocachez.Store.State.{
  Request, Response, Result, ok, LivePath, response, update, update_live, Store, Codec,
  create_live_file, set_materialized,
}
use gocachez.Store.Put.{
  PutFaults, full, installs, entry_of, record_body, install_blob, install_body, stream_body,
  with_live_file, put,
}
use gocachez.Store.RoundTrip.{update_self, update_live_self}

-- No call of the put fails, and the first attempt at the transaction goes through.
pub record Clear (f : PutFaults) : Type 0 where
  pub blob_dir : f.blob_dir ≡ false
  pub live_file : f.live_file ≡ false
  pub pending_file : f.pending_file ≡ false
  pub body_file : f.body_file ≡ false
  pub encoder : f.encoder ≡ false
  pub finish : f.finish ≡ false
  pub install : f.install ≡ installs
  pub begin_error : (f.attempts 1).begin_error ≡ none
  pub output_error : (f.attempts 1).output_error ≡ none
  pub entry_error : (f.attempts 1).entry_error ≡ none
  pub commit_error : (f.attempts 1).commit_error ≡ none

upsert_entry_once-clear :
    (a : Attempt) (e : Entry) (c : Catalog)
    → a.begin_error ≡ none
    → a.output_error ≡ none
    → a.entry_error ≡ none
    → a.commit_error ≡ none
    → upsert_entry_once a e c ≡ (none, record_put e c)
unfolding upsert_entry_once
upsert_entry_once-clear a e c b o n k = rw (b, o, n, k, upsert_entry_once) refl

-- What a put that succeeds leaves: the file of the response holds the body and is remembered, and
-- the catalog has the put, with the size of the blob that is there. A blob that was there before is
-- kept as it was; otherwise it is one that decompresses to the body.
pub record Succeeded (codec : Codec) (f : PutFaults) (req : Request) (content : Bytes)
    (st st' : Store) (r : Response) : Type 0 where
  pub path : LivePath
  pub answered : r ≡ record (response req.id) { disk_path = some path }
  pub on_disk : st'.live path ≡ some content
  pub remembered : st'.materialized req.output_id ≡ some path
  pub blob : Bytes
  pub installed : st'.blobs req.output_id ≡ some blob
  pub origin :
      (st.blobs req.output_id ≡ some blob)
      ⊎ ((st.blobs req.output_id ≡ none) × (codec.decompress blob ≡ some content))
  pub recorded : st'.catalog ≡ record_put (entry_of f req content (length blob)) st.catalog

-- A response, not an error.
abbrev Answers : Codec → PutFaults → Request → Bytes → Store → Result × Store → Type 0
Answers codec f req content st x =
    (r : Response) × (st' : Store) × (x ≡ (ok r, st')) × Succeeded codec f req content st st' r

module _ (f : PutFaults) (clear : Clear f) where
  upsert_entry-clear :
      (e : Entry) (c : Catalog) → upsert_entry f.attempts e c ≡ (none, record_put e c)
  unfolding upsert_entry retry_sqlite_busy retry_from is_sqlite_busy
  upsert_entry-clear e c = ground (
    arith,
    upsert_entry_once-clear (f.attempts 1) e c clear.begin_error clear.output_error
        clear.entry_error clear.commit_error,
  )

  record_body-clear :
      (req : Request) (path : LivePath) (content : Bytes) (size : ℕ) (st : Store)
      → record_body f req path content size st ≡ (
        ok (record (response req.id) { disk_path = some path }),
        set_materialized req.output_id path
            (record st { catalog = record_put (entry_of f req content size) st.catalog }),
      )
  unfolding record_body
  record_body-clear req path content size st =
      ground (arith, upsert_entry-clear (entry_of f req content size) st.catalog)

  after_install :
      (codec : Codec) (req : Request) (path : LivePath) (content blob : Bytes) (st s : Store)
      → install_blob codec f.install req.output_id content st ≡ (some (length blob), s)
      → install_body codec f req path content st
        ≡ record_body f req path content
            (length blob)
            (record s { installed = s.installed + length blob })
  unfolding install_body
  after_install codec req path content blob st s e = ground arith

  install_body-Answers :
      (codec : Codec) (req : Request) (path : LivePath) (content : Bytes) (st : Store)
      → st.live path ≡ some content
      → Answers codec f req content st (install_body codec f req path content st)
  unfolding install_blob set_materialized
  install_body-Answers codec req path content st live =
      elim (Option-cases (st.blobs req.output_id)) [
        | inl absent ↦
            let zst = codec.compress content in
            let s : Store = record st { blobs = update req.output_id (some zst) st.blobs } in
            (
              _,
              _,
              after_install codec req path content zst st s (ground (arith, absent, clear.install))
                  ∙ record_body-clear req path content (length zst)
                      (record s { installed = s.installed + length zst }),
              record {
                path = path;
                answered = refl;
                on_disk = live;
                remembered = update_self req.output_id (some path) st.materialized;
                blob = zst;
                installed = update_self req.output_id (some zst) st.blobs;
                origin = inr (absent, codec.decompress-compress content);
                recorded = refl;
              },
            )
        | inr (blob, there) ↦ (
          _,
          _,
          after_install codec req path content blob st st (ground (arith, there, clear.install))
              ∙ record_body-clear req path content (length blob)
                  (record st { installed = st.installed + length blob }),
          record {
            path = path;
            answered = refl;
            on_disk = live;
            remembered = update_self req.output_id (some path) st.materialized;
            blob = blob;
            installed = there;
            origin = inl there;
            recorded = refl;
          },
        )
      ]

-- A put that meets no failure succeeds: with IDs that are not empty and a body of the announced
-- size it returns a response, whether or not the output has a blob already; and then the file of
-- the response holds the body and is remembered for the output, and the catalog has the put
-- recorded with the size of the blob. A blob that the output had before is kept as it was, without
-- a look at its content; otherwise the blob decompresses to the body.
pub put-Stored :
    (codec : Codec) (f : PutFaults) (req : Request) (content : Bytes) (st : Store)
    → Clear f
    → (length req.action_id == 0) ≡ false
    → (length req.output_id == 0) ≡ false
    → req.body_size ≡ pos (length content)
    → (r : Response) × (st' : Store) × (put codec f (full content) req st ≡ (ok r, st'))
      × Succeeded codec f req content st st' r
unfolding put with_live_file stream_body create_live_file
put-Stored codec f req content st clear a o size =
    let exact : eqb_ℤ (pos (length content)) req.body_size ≡ true = ground (arith, size) in
    let copied : Store = record st {
      live = update_live st.next_path (some content) (update_live st.next_path (some []) st.live);
      next_path = st.next_path + 1;
    } in
    let reached : put codec f (full content) req st
        ≡ install_body codec f req st.next_path content copied =
      ground (
        arith, a, o, exact, clear.blob_dir, clear.live_file, clear.pending_file, clear.body_file,
        clear.encoder, clear.finish,
      ) in
    let (r, st', e, s) =
      install_body-Answers f clear codec req st.next_path content copied (
        update_live_self st.next_path (some content)
          (update_live st.next_path (some []) st.live)) in
    (
      r,
      st',
      reached ∙ e,
      record {
        path = s.path;
        answered = s.answered;
        on_disk = s.on_disk;
        remembered = s.remembered;
        blob = s.blob;
        installed = s.installed;
        origin = s.origin;
        recorded = s.recorded;
      },
    )
