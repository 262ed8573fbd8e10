-- ===== src/Store/Serve.antt =====
-- A get after a put, in the same run or in a later one that finds the same catalog and blob.
use gocachez.Prelude.{◌≡◌, refl, ap, ◌∙◌, Bool, false, none, some, [], Bytes, length, ◌==◌, arith}
use gocachez.Prelude.Int.{ℤ, pos}
use gocachez.Catalog.{Key, Entry, found, lookup_entry}
use gocachez.Catalog.Reads.{lookup-put}
use gocachez.Catalog.WellFormed.{IsWellFormed}
use gocachez.Store.State.{
  Request, Response, Result, ok, LivePath, response, update_live, Store, Codec, create_live_file,
  set_materialized,
}
use gocachez.Store.Put.{PutFaults, full, entry_of, put}
use gocachez.Store.Get.{
  GetFaults, Materialized, at_path, decompress_to, materialize_in, materialize, flush_access_times,
  mark_entry_access, answer, after_materialize, known_path, get_found, get,
}
use gocachez.Store.RoundTrip.{Holds, put_ok, put_named, update_live_self}

-- No call of the get fails.
pub record Quiet (f : GetFaults) : Type 0 where
  pub lookup : f.lookup ≡ none
  pub live_file : f.live_file ≡ false
  pub open_blob : f.open_blob ≡ false
  pub decoder : f.decoder ≡ false
  pub body_file : f.body_file ≡ false
  pub copy : f.copy ≡ false
  pub close_body : f.close_body ≡ false

live-mark_entry_access :
    (failed : Bool) (now : ℤ) (action key : Key) (st : Store)
    → (mark_entry_access failed now action key st).live ≡ st.live
unfolding mark_entry_access flush_access_times
live-mark_entry_access failed now action key st = ground arith

-- The response to a hit on an entry, from a path that holds the content.
abbrev pub Hit : Request → Entry → Bytes → Result × Store → Type 0
Hit req ent content (res, st) =
    (path : LivePath) × (res
      ≡ ok (record (response req.id) {
        output_id = some ent.output_id;
        size = ent.size;
        time = some ent.created_at;
        disk_path = some path;
      }))
    × (st.live path ≡ some content)

answer-Hit :
    (f : GetFaults) (req : Request) (ent : Entry) (path : LivePath) (content : Bytes) (st : Store)
    → st.live path ≡ some content
    → Hit req ent content (answer f req ent path st)
unfolding answer
answer-Hit f req ent path content st live =
    (path, refl, rw (live-mark_entry_access f.flush f.now req.action_id ent.output_id st) live)

module _ (codec : Codec) (f : GetFaults) (quiet : Quiet f) (ent : Entry) (content : Bytes)
    (st : Store) where
  materialize_quiet :
      (blob : Bytes)
      → st.blobs ent.output_id ≡ some blob
      → codec.decompress blob ≡ some content
      → length content ≡ ent.size
      → ((materialize codec f ent st).0 ≡ at_path st.next_path)
        × ((materialize codec f ent st).1.live st.next_path ≡ some content)
  unfolding materialize materialize_in decompress_to create_live_file
  materialize_quiet blob there readable size = (
    ground (
      arith, quiet.live_file, quiet.open_blob, quiet.decoder, quiet.body_file, quiet.copy,
      quiet.close_body, readable, there,
    ),
    ground (
      arith,
      quiet.live_file,
      quiet.open_blob,
      quiet.decoder,
      quiet.body_file,
      quiet.copy,
      quiet.close_body,
      readable,
      there,
      update_live_self st.next_path (some content) (update_live st.next_path (some []) st.live),
    ),
  )

  set_materialized-live :
      (p : LivePath) (s : Store) → (set_materialized ent.output_id p s).live ≡ s.live
  unfolding set_materialized
  set_materialized-live p s = refl

  -- With nothing remembered for the output the blob is decompressed.
  get_found-Hit :
      (req : Request) (blob : Bytes)
      → st.materialized ent.output_id ≡ none
      → st.blobs ent.output_id ≡ some blob
      → codec.decompress blob ≡ some content
      → length content ≡ ent.size
      → Hit req ent content (get_found codec f req ent st)
  unfolding get_found known_path
  get_found-Hit req blob forgotten there readable size =
      let (at, live) = materialize_quiet blob there readable size in
      let st' = (materialize codec f ent st).1 in
      rw (forgotten, get_found)
        (rw (ap (λ (m : Materialized). after_materialize f req ent (m, st')) at) (
          unfold after_materialize in
          answer-Hit f req ent st.next_path content
            (set_materialized ent.output_id st.next_path st')
            (rw (set_materialized-live st.next_path st') live)))

get-Hit :
    (codec : Codec) (f : GetFaults) (req : Request) (ent : Entry) (content : Bytes) (st : Store)
    → f.lookup ≡ none
    → (length req.action_id == 0) ≡ false
    → lookup_entry req.action_id st.catalog ≡ found ent
    → Hit req ent content (get_found codec f req ent st)
    → Hit req ent content (get codec f req st)
unfolding get
get-Hit codec f req ent content st quiet named h hit = rw (named, quiet, h, get) hit

-- A put that is answered with a response can be served: a later request for the same action, by a
-- run that has not materialised the output yet and finds the catalog and the blob that the put
-- left, and that meets no error, is answered with the output ID, the size of the body, the time of
-- the put and the path of a file that holds exactly the body. The blob of the output may have been
-- there before the put, if it decompresses to the same content.
pub get-put :
    (codec : Codec) (pf : PutFaults) (gf : GetFaults) (req req' : Request) (content : Bytes)
    (st st' st2 : Store) (r : Response)
    → IsWellFormed st.catalog
    → Holds codec req.output_id content st
    → put codec pf (full content) req st ≡ (ok r, st')
    → Quiet gf
    → req'.action_id ≡ req.action_id
    → st2.catalog ≡ st'.catalog
    → st2.blobs req.output_id ≡ st'.blobs req.output_id
    → st2.materialized req.output_id ≡ none
    → Hit req'
        (record {
          action_id = req.action_id;
          output_id = req.output_id;
          size = length content;
          compressed_size = 0;
          created_at = pf.now;
          accessed_at = pos 0;
        })
        content
        (get codec gf req' st2)
get-put codec pf gf req req' content st st' st2 r w holds h quiet action catalog blobs forgotten =
    let s = put_ok codec pf req content st st' r holds h in
    let ent : Entry = record {
      action_id = req.action_id;
      output_id = req.output_id;
      size = length content;
      compressed_size = 0;
      created_at = pf.now;
      accessed_at = pos 0;
    } in
    let looked : lookup_entry req'.action_id st2.catalog ≡ found ent =
      rw (action, catalog, s.recorded) (lookup-put (entry_of pf req content s.size) w) in
    get-Hit codec gf req' ent content st2 quiet.lookup
      (rw action (put_named codec pf req content st st' r h)) looked
      (get_found-Hit codec gf quiet ent content st2 req' s.blob forgotten (blobs ∙ s.installed)
        s.readable refl)
