-- ===== src/Catalog/Invariant.antt =====
-- The invariant of the tables under the statements of catalog.go.
use gocachez.Prelude.{
  ℕ, ◌≤◌, ◌≡◌, refl, ap, Bool, true, false, List, [], ◌∷◌, inl, inr, All, All-imp, All-append, find,
  same_iff, Option-cases, Bool-cases, arith, if◌then◌else◌,
}
use gocachez.Prelude.Int.{ℤ}
use gocachez.Catalog.{
  Key, OutputRow, EntryRow, Catalog, Entry, output_tag, update_where, delete_where, has_output_id,
  has_action_id, upsert_output, upsert_entry_row, touch_entry,
}
use gocachez.Catalog.Put.{entry_row, record_put}
use gocachez.Catalog.Tables.{
  Apart, All-update_where, All-delete_where, Apart-append, Apart-delete_where, All-of_find-none,
}
use gocachez.Catalog.WellFormed.{
  Points, IsSound, Unlike, OtherAction, IsWellFormed, Points-update_where, ids-update_where,
  Apart-update_where, Points-delete_where, upsert_output-Points, sequence-upsert_output,
  entries-upsert_output, upsert_output-ids, upsert_output-Unlike, upsert_output-names,
}
use gocachez.Catalog.Steps.{
  Step, put, forget, drop_output, read_entry, read_output, evict, stale_entry, stale_output,
  classify_blob, classify_retained, open_run, close_run, apply, run,
}

-- What a row of `entries` needs of the outputs to resolve to keys that satisfy `P`.
abbrev pub Bound : (Key → Type 0) → Catalog → EntryRow → Type 0
Bound P c e = (e.output ≤ c.sequence) × Points P e.output c.outputs

module _ (P : Key → Type 0) (c : Catalog) (e : EntryRow) (b : Bound P c e) where
  pub Bound-delete_outputs :
      (p : OutputRow → Bool) → Bound P (record c { outputs = delete_where p c.outputs }) e
  Bound-delete_outputs p = (b.0, Points-delete_where P e.output p c.outputs b.1)

  pub Bound-update_outputs :
      (p : OutputRow → Bool) (f : OutputRow → OutputRow)
      → ((o : OutputRow) → (f o).id ≡ o.id)
      → ((o : OutputRow) → (f o).output_id ≡ o.output_id)
      → Bound P (record c { outputs = update_where p f c.outputs }) e
  Bound-update_outputs p f i k = (b.0, Points-update_where p f i k P e.output c.outputs b.1)

  pub Bound-upsert_output :
      (key : Key) (size csize : ℕ) (at : ℤ) → Bound P (upsert_output key size csize at c).1 e
  Bound-upsert_output key size csize at = (
    omega (arith, b.0, sequence-upsert_output key size csize at c),
    upsert_output-Points key size csize at c P e.output b.0 b.1,
  )

-- One lemma for each shape of statement.
module _ {c : Catalog} (w : IsWellFormed c) where
  pub delete_outputs-IsWellFormed :
      (p : OutputRow → Bool) → IsWellFormed (record c { outputs = delete_where p c.outputs })
  delete_outputs-IsWellFormed p = record {
    ids = All-delete_where (λ o. o.id ≤ c.sequence) p c.outputs w.ids;
    unlike = Apart-delete_where Unlike p c.outputs w.unlike;
    actions = w.actions;
    sound =
        All-imp (IsSound c) (IsSound (record c { outputs = delete_where p c.outputs })) c.entries
          (λ e b. Bound-delete_outputs (λ k. output_tag k ≡ e.output_tag) c e b p) w.sound;
  }

  pub update_outputs-IsWellFormed :
      (p : OutputRow → Bool) (f : OutputRow → OutputRow)
      → ((o : OutputRow) → (f o).id ≡ o.id)
      → ((o : OutputRow) → (f o).output_id ≡ o.output_id)
      → IsWellFormed (record c { outputs = update_where p f c.outputs })
  update_outputs-IsWellFormed p f i k = record {
    ids = ids-update_where p f i k c.sequence c.outputs w.ids;
    unlike = Apart-update_where p f i k c.outputs w.unlike;
    actions = w.actions;
    sound =
        All-imp (IsSound c) (IsSound (record c { outputs = update_where p f c.outputs })) c.entries
          (λ e b. Bound-update_outputs (λ k. output_tag k ≡ e.output_tag) c e b p f i k) w.sound;
  }

  pub delete_entries-IsWellFormed :
      (p : EntryRow → Bool) → IsWellFormed (record c { entries = delete_where p c.entries })
  delete_entries-IsWellFormed p = record {
    ids = w.ids;
    unlike = w.unlike;
    actions = Apart-delete_where OtherAction p c.entries w.actions;
    sound = All-delete_where (IsSound c) p c.entries w.sound;
  }

  pub upsert_output-IsWellFormed :
      (key : Key) (size csize : ℕ) (at : ℤ) → IsWellFormed (upsert_output key size csize at c).1
  upsert_output-IsWellFormed key size csize at =
      let c' = (upsert_output key size csize at c).1 in
      record {
        ids = upsert_output-ids key size csize at c w.ids;
        unlike = upsert_output-Unlike key size csize at c w.ids w.unlike;
        actions = rw entries-upsert_output w.actions;
        sound = rw (entries-upsert_output key size csize at c) (
            All-imp (IsSound c) (IsSound c') c.entries
              (λ e b.
                Bound-upsert_output (λ k. output_tag k ≡ e.output_tag) c e b key size csize at)
              w.sound);
      }

-- An update of entries that keeps their actions keeps them apart.
module _ (p : EntryRow → Bool) (f : EntryRow → EntryRow)
    (action-f : (e : EntryRow) → p e ≡ true → (f e).action_id ≡ e.action_id) where
  OtherAction-update_where :
      (e : EntryRow) (xs : List EntryRow)
      → All (OtherAction e) xs
      → All (OtherAction (if p e then f e else e)) (update_where p f xs)
  OtherAction-update_where e xs a =
      All-update_where (OtherAction (if p e then f e else e)) p f xs (λ q t u. rw (action-f q t) u)
        (All-imp (OtherAction e) (OtherAction (if p e then f e else e)) xs
          (λ q u. elim (Bool-cases (p e)) [ inl t ↦ rw t (rw (action-f e t) u) | inr n ↦ rw n u ])
          a)

  Apart-update_entries :
      (xs : List EntryRow) → Apart OtherAction xs → Apart OtherAction (update_where p f xs)
  unfolding update_where
  Apart-update_entries [] a = tt
  Apart-update_entries (x ∷ xs) a = (OtherAction-update_where x xs a.0, Apart-update_entries xs a.1)

module _ {c : Catalog} (w : IsWellFormed c) where
  touch_entry-IsWellFormed : (action : Key) (at : ℤ) → IsWellFormed (touch_entry action at c)
  unfolding touch_entry
  touch_entry-IsWellFormed action at = record {
    ids = w.ids;
    unlike = w.unlike;
    actions = Apart-update_entries (has_action_id action) _ (λ e _. refl) c.entries w.actions;
    sound = All-update_where (IsSound c) (has_action_id action) _ c.entries (λ e _ b. b) w.sound;
  }

  upsert_entry_row-IsWellFormed :
      (row : EntryRow) → IsSound c row → IsWellFormed (upsert_entry_row row c)
  unfolding upsert_entry_row
  upsert_entry_row-IsWellFormed row b =
      elim (Option-cases (find (has_action_id row.action_id) c.entries)) [
        | inl miss ↦
            rw (miss, upsert_entry_row)
              (record {
                ids = w.ids;
                unlike = w.unlike;
                actions = Apart-append OtherAction c.entries row w.actions (
                    All-imp (λ e. has_action_id row.action_id e ≡ false) (λ e. OtherAction e row)
                      c.entries (λ e n q. ground (arith, same_iff e.action_id row.action_id))
                      (All-of_find-none (has_action_id row.action_id) c.entries miss));
                sound = All-append (IsSound c) c.entries (row ∷ []) w.sound (b, tt);
              })
        | inr (e, hit) ↦
            rw (hit, upsert_entry_row)
              (record {
                ids = w.ids;
                unlike = w.unlike;
                actions =
                    Apart-update_entries (has_action_id row.action_id) (λ _. row)
                      (λ q t. ground (arith, same_iff q.action_id row.action_id)) c.entries
                      w.actions;
                sound =
                    All-update_where (IsSound c) (has_action_id row.action_id) (λ _. row) c.entries
                      (λ _ _ _. b) w.sound;
              })
      ]

-- A put keeps the invariant.
pub record_put-IsWellFormed :
    (e : Entry) {c : Catalog} → IsWellFormed c → IsWellFormed (record_put e c)
unfolding record_put
record_put-IsWellFormed e {c} w =
    let n = upsert_output-names e.output_id e.size e.compressed_size e.accessed_at c w in
    let (ref, c') = upsert_output e.output_id e.size e.compressed_size e.accessed_at c in
    upsert_entry_row-IsWellFormed
      (upsert_output-IsWellFormed w e.output_id e.size e.compressed_size e.accessed_at)
      (entry_row e ref)
      (
        n.0,
        All-imp (λ o. o.id ≡ ref → o.output_id ≡ e.output_id)
            (λ o. o.id ≡ ref → output_tag o.output_id ≡ output_tag e.output_id) c'.outputs
            (λ o h q. ap output_tag (h q)) n.1,
      )

-- Every statement keeps the invariant.
pub apply-IsWellFormed : (s : Step) {c : Catalog} → IsWellFormed c → IsWellFormed (apply s c)
unfolding apply
apply-IsWellFormed (put e) w = record_put-IsWellFormed e w
apply-IsWellFormed (forget a) w = delete_entries-IsWellFormed w (has_action_id a)
apply-IsWellFormed (drop_output k) w = delete_outputs-IsWellFormed w (has_output_id k)
apply-IsWellFormed (read_entry a t) w = touch_entry-IsWellFormed w a t
apply-IsWellFormed (read_output k t) w =
    update_outputs-IsWellFormed w (has_output_id k) _ (λ _. refl) (λ _. refl)
apply-IsWellFormed (evict k t) w = delete_outputs-IsWellFormed w _
apply-IsWellFormed (stale_entry a t) w = delete_entries-IsWellFormed w _
apply-IsWellFormed (stale_output k t) w = delete_outputs-IsWellFormed w _
apply-IsWellFormed (classify_blob k n v) w =
    update_outputs-IsWellFormed w (has_output_id k) _ (λ _. refl) (λ _. refl)
apply-IsWellFormed (classify_retained k n v) w =
    update_outputs-IsWellFormed w (has_output_id k) _ (λ _. refl) (λ _. refl)
apply-IsWellFormed (open_run r p t) w = record {
  ids = w.ids;
  unlike = w.unlike;
  actions = w.actions;
  sound = w.sound;
}
apply-IsWellFormed (close_run r) w = record {
  ids = w.ids;
  unlike = w.unlike;
  actions = w.actions;
  sound = w.sound;
}

-- From a well-formed catalog, any sequence of puts, reads, evictions, expiries, classifications
-- and run registrations leaves a well-formed catalog: output IDs, ids and action IDs are unique,
-- no row has an id above the sequence, and the tag of every entry agrees with each output that its
-- reference resolves to.
pub run-IsWellFormed : (ss : List Step) {c : Catalog} → IsWellFormed c → IsWellFormed (run ss c)
unfolding run
run-IsWellFormed [] w = w
run-IsWellFormed (s ∷ ss) w = run-IsWellFormed ss (apply-IsWellFormed s w)
