-- ===== src/Store/Answers.antt =====
-- The number of a response.
use gocachez.Prelude.{
  ℕ, ◌≡◌, refl, ◌||◌, Option, none, some, Bytes, length, ◌==◌, arith, Bool-cases, Option-cases, inl,
  inr, ◌⊎◌,
}
use gocachez.Prelude.Int.{eqb_ℤ, pos}
use gocachez.Catalog.{Entry, Lookup, no_rows, tag_mismatch, found, lookup_entry}
use gocachez.Store.State.{
  Command, Request, Result, LivePath, Store, Codec, create_live_file, update_live,
}
use gocachez.Store.Put.{
  PutFaults, Body, refused, broken, full, is_refused, record_body, install_body, install_blob,
  stream_body, with_live_file, put,
}
use gocachez.Store.Get.{
  GetFaults, Materialized, at_path, bad_blob, failure, answer, after_materialize, materialize,
  get_found, known_path, get, report, handle,
}

-- What is sent for the result bears the number of the request.
abbrev IsNumbered : Request → Result → Type 0
IsNumbered req r = (report req r).id ≡ req.id

Lookup-cases : (l : Lookup) → (l ≡ no_rows) ⊎ (l ≡ tag_mismatch) ⊎ ((ent : Entry) × (l ≡ found ent))
Lookup-cases no_rows = inl refl
Lookup-cases tag_mismatch = inr (inl refl)
Lookup-cases (found ent) = inr (inr (ent, refl))

Command-cases :
    (c : Command)
    → (c ≡ Command.put) ⊎ (c ≡ Command.get) ⊎ (c ≡ Command.close) ⊎ (c ≡ Command.unknown)
Command-cases Command.put = inl refl
Command-cases Command.get = inr (inl refl)
Command-cases Command.close = inr (inr (inl refl))
Command-cases Command.unknown = inr (inr (inr refl))

module _ (codec : Codec) (req : Request) where
  record_body-IsNumbered :
      (f : PutFaults) (path : LivePath) (content : Bytes) (size : ℕ) (st : Store)
      → IsNumbered req (record_body f req path content size st).0
  unfolding record_body report
  record_body-IsNumbered f path content size st = ground arith

  install_body-IsNumbered :
      (f : PutFaults) (path : LivePath) (content : Bytes) (st : Store)
      → IsNumbered req (install_body codec f req path content st).0
  unfolding install_body report
  install_body-IsNumbered f path content st =
      elim (Option-cases (install_blob codec f.install req.output_id content st).0) [
        | inl e ↦ rw (e, install_body) refl
        | inr (size, e) ↦ rw (e, install_body) (record_body-IsNumbered f path content size _)
      ]

  stream_body-IsNumbered :
      (f : PutFaults) (path : LivePath) (body : Body) (st : Store)
      → IsNumbered req (stream_body codec f req path body st).0
  unfolding stream_body report
  stream_body-IsNumbered f path refused st = refl
  stream_body-IsNumbered f path (broken part) st = refl
  stream_body-IsNumbered f path (full content) st = elim (Bool-cases f.finish) [
    | inl t ↦ rw (t, stream_body) refl
    | inr g ↦ elim (Bool-cases (eqb_ℤ (pos (length content)) req.body_size)) [
      | inr short ↦ rw (g, short, stream_body) refl
      | inl exact ↦ ground (
        arith,
        g,
        exact,
        install_body-IsNumbered f path content
            (record st { live = update_live path (some content) st.live }),
      )
    ]
  ]

  with_live_file-IsNumbered :
      (f : PutFaults) (body : Body) (made : Option LivePath × Store)
      → IsNumbered req (with_live_file codec f req body made).0
  unfolding with_live_file report
  with_live_file-IsNumbered f body (none, st) = refl
  with_live_file-IsNumbered f body (some path, st) =
      elim (Bool-cases (f.pending_file || f.body_file || f.encoder)) [
        | inl t ↦ rw (t, with_live_file) refl
        | inr g ↦ rw (g, with_live_file) (stream_body-IsNumbered f path body st)
      ]

  put-IsNumbered :
      (f : PutFaults) (body : Body) (st : Store) → IsNumbered req (put codec f body req st).0
  unfolding put report
  put-IsNumbered f body st =
      let late = with_live_file-IsNumbered f body (create_live_file f.live_file st) in
      elim (Bool-cases (
        (length req.action_id == 0)
        || (length req.output_id == 0)
        || is_refused body
        || f.blob_dir)) [ inl early ↦ ground arith | inr on ↦ ground (arith, late) ]

  after_materialize-IsNumbered :
      (f : GetFaults) (ent : Entry) (m : Materialized × Store)
      → IsNumbered req (after_materialize f req ent m).0
  unfolding after_materialize answer report
  after_materialize-IsNumbered f ent (at_path path, st) = refl
  after_materialize-IsNumbered f ent (bad_blob, st) = refl
  after_materialize-IsNumbered f ent (failure, st) = refl

  get_found-IsNumbered :
      (f : GetFaults) (ent : Entry) (st : Store) → IsNumbered req (get_found codec f req ent st).0
  unfolding get_found
  get_found-IsNumbered f ent st = elim (Option-cases (known_path ent.output_id st)) [
    | inl e ↦ rw (e, get_found) (after_materialize-IsNumbered f ent (materialize codec f ent st))
    | inr (path, e) ↦ rw (e, get_found) (unfold answer report in refl)
  ]

  get-IsNumbered : (f : GetFaults) (st : Store) → IsNumbered req (get codec f req st).0
  unfolding get
  get-IsNumbered f st = elim (Bool-cases (length req.action_id == 0)) [
    | inl t ↦ rw (t, get) (unfold report in refl)
    | inr g ↦ elim (Option-cases f.lookup) [
      | inr (err, e) ↦ rw (g, e, get) (unfold report in refl)
      | inl e ↦ elim (Lookup-cases (lookup_entry req.action_id st.catalog)) [
        | inl l ↦ rw (g, e, l, get) (unfold report in refl)
        | inr (inl l) ↦ rw (g, e, l, get) (unfold report in refl)
        | inr (inr (ent, l)) ↦ rw (g, e, l, get) (get_found-IsNumbered f ent st)
      ]
    ]
  ]

  -- Every request is answered under its own number: whatever the command, and whatever fails in
  -- serving it, the response carries the request's ID, so that the go command can match it.
  pub id-handle :
      (pf : PutFaults) (gf : GetFaults) (body : Body) (st : Store)
      → (handle codec pf gf body req st).0.id ≡ req.id
  unfolding handle
  id-handle pf gf body st = elim (Command-cases req.command) [
    | inl c ↦ rw (c, handle) (put-IsNumbered pf body st)
    | inr (inl c) ↦ rw (c, handle) (get-IsNumbered gf st)
    | inr (inr (inl c)) ↦ rw (c, handle) refl
    | inr (inr (inr c)) ↦ rw (c, handle) (unfold report in refl)
  ]
