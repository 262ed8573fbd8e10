-- ===== src/Store/RoundTrip.antt =====
-- What a successful put guarantees, and what a get of it returns.
use gocachez.Prelude.{
  ℕ, ◌+◌, ◌≡◌, refl, ap, ◌⊎◌, inl, inr, false, Option, some, [], Bytes, same_refl, length, ◌==◌,
  arith, Option-cases,
}
use gocachez.Catalog.{Key}
use gocachez.Catalog.Put.{record_put}
use gocachez.Catalog.Retry.{upsert_entry-Outcome}
use gocachez.Store.State.{
  Request, Response, ok, LivePath, response, update, update_live, Store, Codec, create_live_file,
  set_materialized,
}
use gocachez.Store.Put.{
  PutFaults, full, Install, installs, vanishes, overtaken, rename_fails, stat_fails, entry_of,
  record_body, install_blob, install_body, stream_body, with_live_file, put,
}

-- The blob of the output, if there is one, holds the content.
abbrev pub Holds : Codec → Key → Bytes → Store → Type 0
Holds codec key content st =
    (blob : Bytes) → st.blobs key ≡ some blob → codec.decompress blob ≡ some content

-- What is true after a put that returned a response.
pub record Stored (codec : Codec) (f : PutFaults) (req : Request) (content : Bytes) (st st' : Store)
    (r : Response) : Type 0 where
  pub path : LivePath
  pub answered : r ≡ record (response req.id) { disk_path = some path }
  pub on_disk : st'.live path ≡ some content
  pub remembered : st'.materialized req.output_id ≡ some path
  pub size : ℕ
  pub recorded : st'.catalog ≡ record_put (entry_of f req content size) st.catalog
  pub blob : Bytes
  pub installed : st'.blobs req.output_id ≡ some blob
  pub readable : codec.decompress blob ≡ some content

record_body_ok :
    (f : PutFaults) (req : Request) (path : LivePath) (content : Bytes) (size : ℕ) (st st' : Store)
    (r : Response)
    → record_body f req path content size st ≡ (ok r, st')
    → (r ≡ record (response req.id) { disk_path = some path })
      × (st'
          ≡ set_materialized req.output_id path
              (record st { catalog = record_put (entry_of f req content size) st.catalog }))
unfolding record_body
record_body_ok f req path content size st st' r h =
    let o = upsert_entry-Outcome f.attempts (entry_of f req content size) st.catalog in
    ground (arith, o.recorded)

pub update_self {ℓ} :
    {V : Type ℓ} (k : Key) (v : Option V) (m : Key → Option V) → update k v m k ≡ v
unfolding update
update_self k v m = rw same_refl refl

pub update_live_self :
    (p : LivePath) (v : Option Bytes) (m : LivePath → Option Bytes) → update_live p v m p ≡ v
unfolding update_live
update_live_self p v m = ground arith

module _ (codec : Codec) (key : Key) (content : Bytes) (st : Store) where
  -- A blob that is installed is the one that was there, or the compressed content.
  pub install_cases :
      (out : Install) (size : ℕ) (st' : Store)
      → install_blob codec out key content st ≡ (some size, st')
      → ((blob : Bytes) × (st.blobs key ≡ some blob) × (size ≡ length blob) × (st' ≡ st))
        ⊎ ((size ≡ length (codec.compress content))
            × (st' ≡ record st { blobs = update key (some (codec.compress content)) st.blobs }))
  unfolding install_blob
  install_cases installs size st' h = elim (Option-cases (st.blobs key)) [
    | inl absent ↦ inr (ground (arith, absent), ground (arith, absent))
    | inr (blob, there) ↦ inl (blob, there, ground (arith, there), ground (arith, there))
  ]
  install_cases vanishes size st' h = elim (Option-cases (st.blobs key)) [
    | inl absent ↦ inr (ground (arith, absent), ground (arith, absent))
    | inr (blob, there) ↦ inr (ground (arith, there), ground (arith, there))
  ]
  install_cases overtaken size st' h = elim (Option-cases (st.blobs key)) [
    | inl absent ↦ inr (ground (arith, absent), ground (arith, absent))
    | inr (blob, there) ↦ inl (blob, there, ground (arith, there), ground (arith, there))
  ]
  install_cases rename_fails size st' h = elim (Option-cases (st.blobs key)) [
    | inl absent ↦ absurd (ground (arith, absent))
    | inr (blob, there) ↦ absurd (ground (arith, there))
  ]
  install_cases stat_fails size st' h = elim (Option-cases (st.blobs key)) [
    | inl absent ↦ absurd (ground (arith, absent))
    | inr (blob, there) ↦ absurd (ground (arith, there))
  ]

  install_blob_ok :
      (out : Install) (size : ℕ) (st' : Store)
      → Holds codec key content st
      → install_blob codec out key content st ≡ (some size, st')
      → (blob : Bytes) × (st' ≡ record st { blobs = st'.blobs })
        × (st'.blobs key ≡ some blob)
        × (codec.decompress blob ≡ some content)
  install_blob_ok out size st' holds h = elim (install_cases out size st' h) [
    | inl (blob, there, measured, kept) ↦
        (blob, ground (arith, kept), ground (arith, kept, there), holds blob there)
    | inr (measured, put_there) ↦ (
      codec.compress content,
      ground (arith, put_there),
      ground (arith, put_there, update_self key (some (codec.compress content)) st.blobs),
      codec.decompress-compress content,
    )
  ]

module _ (codec : Codec) (f : PutFaults) (req : Request) (content : Bytes) where
  install_body_ok :
      (path : LivePath) (st st' : Store) (r : Response)
      → Holds codec req.output_id content st
      → st.live path ≡ some content
      → install_body codec f req path content st ≡ (ok r, st')
      → Stored codec f req content st st' r
  unfolding install_body set_materialized
  install_body_ok path st st' r holds live h =
      elim (Option-cases (install_blob codec f.install req.output_id content st).0) [
        | inl gone ↦ absurd (ground (arith, gone))
        | inr (size, e) ↦
            let stb = (install_blob codec f.install req.output_id content st).1 in
            let (blob, shape, there, readable) =
              install_blob_ok codec req.output_id content st f.install size stb holds
                (ap (λ (o : Option ℕ). (o, stb)) e) in
            let (answered, after) =
              record_body_ok f req path content size
                (record stb { installed = stb.installed + size }) st' r (ground (arith, e)) in
            record {
              path = path;
              answered = answered;
              on_disk = ground (arith, after, shape, live);
              remembered = rw (after) (update_self req.output_id (some path) stb.materialized);
              size = size;
              recorded = ground (arith, after, shape);
              blob = blob;
              installed = ground (arith, after, there);
              readable = readable;
            }
      ]

  -- The state in which the copied body is installed.
  abbrev copied : Store → Store
  copied st = record st {
    live = update_live st.next_path (some content) (update_live st.next_path (some []) st.live);
    next_path = st.next_path + 1;
  }

  put-copied :
      (st st' : Store) (r : Response)
      → put codec f (full content) req st ≡ (ok r, st')
      → install_body codec f req st.next_path content (copied st) ≡ (ok r, st')
  unfolding put with_live_file stream_body create_live_file
  put-copied st st' r h = ground arith

  pub put_ok :
      (st st' : Store) (r : Response)
      → Holds codec req.output_id content st
      → put codec f (full content) req st ≡ (ok r, st')
      → Stored codec f req content st st' r
  put_ok st st' r holds h =
      let s =
        install_body_ok st.next_path (copied st) st' r holds
          (update_live_self st.next_path (some content)
            (update_live st.next_path (some []) st.live))
          (put-copied st st' r h) in
      record {
        path = s.path;
        answered = s.answered;
        on_disk = s.on_disk;
        remembered = s.remembered;
        size = s.size;
        recorded = s.recorded;
        blob = s.blob;
        installed = s.installed;
        readable = s.readable;
      }

  pub put_named :
      (st st' : Store) (r : Response)
      → put codec f (full content) req st ≡ (ok r, st')
      → (length req.action_id == 0) ≡ false
  unfolding put
  put_named st st' r h = ground arith
