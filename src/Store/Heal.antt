-- ===== src/Store/Heal.antt =====
-- A get that finds its blob missing or bad.
use mathlib.Core.Path.{subst}
use gocachez.Prelude.{
  ◌≡◌, refl, ap, ◌∙◌, ◌⊎◌, inl, inr, true, false, find, Bool-cases, none, some, Bytes, same_refl,
  length, ◌==◌, arith,
}
use gocachez.Catalog.{
  Key, Catalog, Entry, no_rows, found, resolve, has_output_id, lookup_entry, has_action_id,
  delete_action, delete_output,
}
use gocachez.Catalog.Tables.{find-delete_where_self}
use gocachez.Store.State.{
  Request, Result, update, Store, Codec, create_live_file, remove_live, delete_materialized,
}
use gocachez.Store.Get.{
  GetFaults, Materialized, bad_blob, decompress_to, materialize_in, materialize, drop_bad, miss,
  after_materialize, known_path, get_found, get,
}

-- The blob of the entry is missing, does not decompress, or has another size.
abbrev pub Unreadable : Codec → Entry → Store → Type 0
Unreadable codec ent st =
    (st.blobs ent.output_id ≡ none)
    ⊎ ((blob : Bytes) × (st.blobs ent.output_id ≡ some blob)
        × ((codec.decompress blob ≡ none)
            ⊎ ((content : Bytes) × (codec.decompress blob ≡ some content)
                × ((length content == ent.size) ≡ false))))

-- The calls before the blob is found bad do not fail.
pub record Reaches (f : GetFaults) : Type 0 where
  pub lookup : f.lookup ≡ none
  pub live_file : f.live_file ≡ false
  pub open_blob : f.open_blob ≡ false
  pub body_file : f.body_file ≡ false
  pub close_body : f.close_body ≡ false

-- What dropping an entry leaves, by the call that fails first: nothing happens, or the blob is
-- gone, or the row of the output too, or all of it is and the next lookup misses.
pub data Cleanup (f : GetFaults) (req : Request) (ent : Entry) (st st' : Store) : Type 0 where
  blob_stays :
      f.unlink ≡ true → st'.blobs ≡ st.blobs → st'.catalog ≡ st.catalog → Cleanup f req ent st st'
  row_stays :
      f.unlink ≡ false
      → f.drop_output ≡ true
      → st'.blobs ent.output_id ≡ none
      → st'.catalog ≡ st.catalog
      → Cleanup f req ent st st'
  entry_stays :
      f.unlink ≡ false
      → f.drop_output ≡ false
      → f.drop_entry ≡ true
      → st'.blobs ent.output_id ≡ none
      → find (has_output_id ent.output_id) st'.catalog.outputs ≡ none
      → st'.catalog.entries ≡ st.catalog.entries
      → Cleanup f req ent st st'
  all_gone :
      f.unlink ≡ false
      → f.drop_output ≡ false
      → f.drop_entry ≡ false
      → st'.blobs ent.output_id ≡ none
      → find (has_output_id ent.output_id) st'.catalog.outputs ≡ none
      → lookup_entry req.action_id st'.catalog ≡ no_rows
      → st'.materialized ent.output_id ≡ none
      → Cleanup f req ent st st'

-- A miss, and the cleanup.
pub record Dropped (f : GetFaults) (req : Request) (ent : Entry) (st : Store) (x : Result × Store)
    : Type 0 where
  pub missed : x.0 ≡ miss req
  pub cleanup : Cleanup f req ent st x.1

lookup_entry-delete_action :
    (action : Key) (c : Catalog) → lookup_entry action (delete_action action c) ≡ no_rows
unfolding lookup_entry delete_action
lookup_entry-delete_action action c =
    rw (find-delete_where_self (has_action_id action) c.entries) (unfold resolve in refl)

module _ (f : GetFaults) (req : Request) (ent : Entry) where
  drop_bad-Cleanup : (st : Store) → Cleanup f req ent st (drop_bad f req.action_id ent.output_id st)
  unfolding drop_bad delete_materialized update delete_output delete_action
  drop_bad-Cleanup st =
      let key = ent.output_id in
      let no_row = find-delete_where_self (has_output_id key) st.catalog.outputs in
      let no_entry = lookup_entry-delete_action req.action_id (delete_output key st.catalog) in
      elim (Bool-cases f.unlink) [
        | inl u ↦ blob_stays u (ground (arith, u)) (ground (arith, u))
        | inr u ↦ elim (Bool-cases f.drop_output) [
          | inl o ↦ row_stays u o (ground (arith, u, o, same_refl key)) (ground (arith, u, o))
          | inr o ↦ elim (Bool-cases f.drop_entry) [
            | inl e ↦
                entry_stays u o e (ground (arith, u, o, e, same_refl key))
                  (ground (arith, u, o, e, no_row)) (ground (arith, u, o, e))
            | inr e ↦
                all_gone u o e (ground (arith, u, o, e, same_refl key))
                  (ground (arith, u, o, e, no_row)) (ground (arith, u, o, e, no_entry))
                  (ground (arith, u, o, e, same_refl key))
          ]
        ]
      ]

  -- Materializing touches neither the catalog nor the blobs.
  materialize-keeps :
      (codec : Codec) (st : Store)
      → ((materialize codec f ent st).1.catalog ≡ st.catalog)
        × ((materialize codec f ent st).1.blobs ≡ st.blobs)
  unfolding materialize materialize_in decompress_to create_live_file remove_live
  materialize-keeps codec st = (ground arith, ground arith)

  materialize-bad_blob :
      (codec : Codec) (st : Store)
      → Reaches f
      → Unreadable codec ent st
      → (materialize codec f ent st).0 ≡ bad_blob
  unfolding materialize materialize_in decompress_to create_live_file
  materialize-bad_blob codec st r bad =
      ground (arith, r.live_file, r.open_blob, r.body_file, r.close_body, bad)

  Cleanup-move :
      (st s s' : Store)
      → s.catalog ≡ st.catalog
      → s.blobs ≡ st.blobs
      → Cleanup f req ent s s'
      → Cleanup f req ent st s'
  Cleanup-move st s s' c b (blob_stays u x y) = blob_stays u (x ∙ b) (y ∙ c)
  Cleanup-move st s s' c b (row_stays u o x y) = row_stays u o x (y ∙ c)
  Cleanup-move st s s' c b (entry_stays u o e x y z) =
      entry_stays u o e x y (z ∙ ap (λ (k : Catalog). k.entries) c)
  Cleanup-move st s s' c b (all_gone u o e x y z w) = all_gone u o e x y z w

  get_found-Dropped :
      (codec : Codec) (st : Store)
      → Reaches f
      → known_path ent.output_id st ≡ none
      → Unreadable codec ent st
      → Dropped f req ent st (get_found codec f req ent st)
  unfolding get_found
  get_found-Dropped codec st reaches unknown bad =
      let st' = (materialize codec f ent st).1 in
      let (c, b) = materialize-keeps codec st in
      rw (unknown, get_found)
        (rw
          (ap (λ (m : Materialized). after_materialize f req ent (m, st'))
            (materialize-bad_blob codec st reaches bad))
          (unfold after_materialize in
            record {
              missed = refl;
              cleanup =
                  Cleanup-move st st' (drop_bad f req.action_id ent.output_id st') c b
                    (drop_bad-Cleanup st');
            }))

-- A bad blob heals: a get that finds the entry and no file from earlier, but a blob that is
-- missing, does not decompress or has another size than the entry says, answers with a miss,
-- provided that the lookup works, the blob can be opened if it is there, and the live file can be
-- made, opened and closed. The miss is the answer also where the cleanup fails, which ends at the
-- call that fails; if none does, the blob, the output's row and the entry are gone, and so is the
-- path that was remembered, so that the next lookup misses and the build can put it again.
pub get-Dropped :
    (codec : Codec) (f : GetFaults) (req : Request) (ent : Entry) (st : Store)
    → Reaches f
    → (length req.action_id == 0) ≡ false
    → lookup_entry req.action_id st.catalog ≡ found ent
    → known_path ent.output_id st ≡ none
    → Unreadable codec ent st
    → Dropped f req ent st (get codec f req st)
unfolding get
get-Dropped codec f req ent st reaches named h unknown bad =
    let reached : get_found codec f req ent st ≡ get codec f req st =
      ground (arith, named, reaches.lookup, h) in
    subst (Dropped f req ent st) reached (get_found-Dropped f req ent codec st reaches unknown bad)
