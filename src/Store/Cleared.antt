-- ===== src/Store/Cleared.antt =====
-- What the deferred removal and the installation leave of a put that fails (cache.go).
use gocachez.Prelude.{
  ℕ, ◌+◌, ◌≤◌, ◌≡◌, refl, ap, ◌∙◌, ◌≢◌, ◌⊎◌, inl, inr, Bool, true, false, Option, none, some, Bytes,
  length, arith, Option-cases,
}
use gocachez.Catalog.{Key, Catalog}
use gocachez.Catalog.Put.{DbError, record_put, upsert_entry, catalog_put_attempts}
use gocachez.Catalog.Disputed.{Landed, upsert_entry-Unanswered}
use gocachez.Store.RoundTrip.{install_cases, update_self}
use gocachez.Store.State.{Request, Error, fail, LivePath, update_live, Store, Codec, remove_live}
use gocachez.Store.Put.{
  PutFaults, Body, full, Install, entry_of, record_body, install_blob, install_body,
}

-- The catalog and the blob that a failed put leaves: the catalog is as it was, or the body came in
-- whole and the commit of an attempt, whose statements had gone through, took effect although it
-- reported a failure. Then it has the whole put, with the size of the blob that is installed.
pub record Disputed (f : PutFaults) (body : Body) (req : Request) (c : Catalog) (st' : Store)
    : Type 0 where
  pub content : Bytes
  pub is_body : body ≡ full content
  pub blob : Bytes
  pub installed : st'.blobs req.output_id ≡ some blob
  pub attempt : ℕ
  pub tried : (1 ≤ attempt) × (attempt ≤ catalog_put_attempts)
  pub landed : Landed (f.attempts attempt)
  pub recorded : st'.catalog ≡ record_put (entry_of f req content (length blob)) c

abbrev pub SameOrDisputed : PutFaults → Body → Request → Store → Store → Type 0
SameOrDisputed f body req st st' = (st'.catalog ≡ st.catalog) ⊎ Disputed f body req st.catalog st'

-- What a failure leaves alone, from a state in which the live file is there, under `path`.
pub record Cleared (f : PutFaults) (body : Body) (req : Request) (path : LivePath) (st st' : Store)
    : Type 0 where
  pub materialized : st'.materialized ≡ st.materialized
  pub removed : (f.remove ≡ true) ⊎ (st'.live path ≡ none)
  pub others : (p : LivePath) → p ≢ path → st'.live p ≡ st.live p
  pub catalog : SameOrDisputed f body req st st'

-- The removal, which touches only the file of the put.
module _ (path : LivePath) (s : Store) where
  remove_live-keeps :
      (failed : Bool)
      → remove_live failed path s ≡ record s { live = (remove_live failed path s).live }
  unfolding remove_live
  remove_live-keeps true = refl
  remove_live-keeps false = refl

  remove_live-removed :
      (failed : Bool) → (failed ≡ true) ⊎ ((remove_live failed path s).live path ≡ none)
  unfolding remove_live update_live
  remove_live-removed true = inl refl
  remove_live-removed false = inr (ground arith)

  remove_live-others :
      (failed : Bool) (p : LivePath) → p ≢ path → (remove_live failed path s).live p ≡ s.live p
  unfolding remove_live update_live
  remove_live-others true p ne = refl
  remove_live-others false p ne = ground arith

module _ (codec : Codec) (f : PutFaults) (req : Request) where
  SameOrDisputed-move :
      (body : Body) (st s s' : Store)
      → s'.catalog ≡ s.catalog
      → s'.blobs ≡ s.blobs
      → SameOrDisputed f body req st s
      → SameOrDisputed f body req st s'
  SameOrDisputed-move body st s s' c b (inl kept) = inl (c ∙ kept)
  SameOrDisputed-move body st s s' c b (inr d) = inr (record {
    content = d.content;
    is_body = d.is_body;
    blob = d.blob;
    installed = ap (λ (m : Key → Option Bytes). m req.output_id) b ∙ d.installed;
    attempt = d.attempt;
    tried = d.tried;
    landed = d.landed;
    recorded = c ∙ d.recorded;
  })

  -- The deferred removal, in a state in which only the file of the put was touched.
  pub clear :
      (body : Body) (path : LivePath) (st s : Store)
      → s.materialized ≡ st.materialized
      → ((p : LivePath) → p ≢ path → s.live p ≡ st.live p)
      → SameOrDisputed f body req st s
      → Cleared f body req path st (remove_live f.remove path s)
  clear body path st s m others c =
      let keeps = remove_live-keeps path s f.remove in
      record {
        materialized = ap (λ (x : Store). x.materialized) keeps ∙ m;
        removed = remove_live-removed path s f.remove;
        others = λ p ne. remove_live-others path s f.remove p ne ∙ others p ne;
        catalog =
            SameOrDisputed-move body st s (remove_live f.remove path s)
              (ap (λ (x : Store). x.catalog) keeps) (ap (λ (x : Store). x.blobs) keeps) c;
      }

  -- What installing does, and the size that it reports.
  install_blob_keeps :
      (out : Install) (key : Key) (content : Bytes) (st : Store)
      → (install_blob codec out key content st).1
        ≡ record st { blobs = (install_blob codec out key content st).1.blobs }
  unfolding install_blob
  install_blob_keeps out key content st = ground arith

  install_blob-size :
      (out : Install) (key : Key) (content : Bytes) (st : Store) (size : ℕ)
      → (install_blob codec out key content st).0 ≡ some size
      → (blob : Bytes) × ((install_blob codec out key content st).1.blobs key ≡ some blob)
        × (size ≡ length blob)
  install_blob-size out key content st size h =
      let stb = (install_blob codec out key content st).1 in
      let zst = codec.compress content in
      elim (install_cases codec key content st out size stb (ap (λ (o : Option ℕ). (o, stb)) h)) [
        | inl (blob, there, measured, kept) ↦
            (blob, ap (λ (s : Store). s.blobs key) kept ∙ there, measured)
        | inr (measured, put_there) ↦ (
          zst,
          ap (λ (s : Store). s.blobs key) put_there ∙ update_self key (some zst) st.blobs,
          measured,
        )
      ]

  -- A failing catalog write is followed by the removal.
  record_body_fail :
      (path : LivePath) (content : Bytes) (size : ℕ) (st st' : Store) (e : Error)
      → record_body f req path content size st ≡ (fail e, st')
      → (c : Catalog) × (err : DbError) × (st'
          ≡ remove_live f.remove path (record st { catalog = c }))
        × (upsert_entry f.attempts (entry_of f req content size) st.catalog ≡ (some err, c))
  unfolding record_body
  record_body_fail path content size st st' e h =
      let r = upsert_entry f.attempts (entry_of f req content size) st.catalog in
      elim (Option-cases r.0) [
        | inl fine ↦ absurd (ground (arith, fine))
        | inr (err, bad) ↦
            (r.1, err, ground (arith, bad), ap (λ (o : Option DbError). (o, r.1)) bad)
      ]

  resized :
      (content : Bytes) (size size' : ℕ) (c0 c1 c : Catalog)
      → c ≡ record_put (entry_of f req content size) c0
      → c0 ≡ c1
      → size ≡ size'
      → c ≡ record_put (entry_of f req content size') c1
  resized content size size' c0 c1 c all before measured = cc

  pub install_body-Cleared :
      (path : LivePath) (content : Bytes) (st st' : Store) (e : Error)
      → install_body codec f req path content st ≡ (fail e, st')
      → Cleared f (full content) req path st st'
  unfolding install_body
  install_body-Cleared path content st st' e h =
      let keeps = install_blob_keeps f.install req.output_id content st in
      let i = install_blob codec f.install req.output_id content st in
      elim (Option-cases i.0) [
        | inl gone ↦
            let end : remove_live f.remove path i.1 ≡ st' = ground (arith, gone) in
            rw end at (
              clear (full content) path st i.1 (ap (λ (s : Store). s.materialized) keeps)
                (λ p ne. ap (λ (s : Store). s.live p) keeps)
                (inl (ap (λ (s : Store). s.catalog) keeps)))
        | inr (size, there) ↦
            let (blob, installed, measured) =
              install_blob-size f.install req.output_id content st size there in
            let counted : Store = record i.1 { installed = i.1.installed + size } in
            let (c, err, end, failed) =
              record_body_fail path content size counted st' e (ground (arith, there)) in
            let before : i.1.catalog ≡ st.catalog = ap (λ (s : Store). s.catalog) keeps in
            rw end (
              clear (full content) path st (record counted { catalog = c })
                (ap (λ (s : Store). s.materialized) keeps)
                (λ p ne. ap (λ (s : Store). s.live p) keeps)
                (elim (upsert_entry-Unanswered f.attempts (entry_of f req content size) i.1.catalog
                  c err failed) [
                    | inl kept ↦ inl (kept ∙ before)
                    | inr (n, low, high, landed, all) ↦ inr (record {
                      content = content;
                      is_body = refl;
                      blob = blob;
                      installed = installed;
                      attempt = n;
                      tried = (low, high);
                      landed = landed;
                      recorded =
                          resized content size (length blob) i.1.catalog st.catalog c all before
                            measured;
                    })
                  ]))
      ]
