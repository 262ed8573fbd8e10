-- ===== src/Catalog/Soft.antt =====
-- The soft reference from `entries` to `outputs`: what an action can come to name.
use gocachez.Prelude.{
  ◌≡◌, refl, ◌≢◌, false, some, List, [], ◌∷◌, inl, inr, All, All-imp, All-append, All-find, find,
  same, same_iff, Option-cases, arith,
}
use gocachez.Catalog.{
  Key, OutputRow, EntryRow, Catalog, Entry, tag_mismatch, found, check_tag, resolve, lookup_entry,
  output_tag, has_output_id, has_action_id, has_id, upsert_output, upsert_entry_row,
}
use gocachez.Catalog.Put.{entry_row, record_put}
use gocachez.Catalog.Tables.{
  All-update_where, All-update_where-All, All-delete_where, All-of_find-none, find_test,
}
use gocachez.Catalog.WellFormed.{IsSound, IsWellFormed, entries-upsert_output, upsert_output-names}
use gocachez.Catalog.Steps.{
  Step, put, forget, drop_output, read_entry, read_output, evict, stale_entry, stale_output,
  classify_blob, classify_retained, open_run, close_run, apply, run,
}
use gocachez.Catalog.Invariant.{
  Bound, Bound-delete_outputs, Bound-update_outputs, Bound-upsert_output, run-IsWellFormed,
}

abbrev pub Is : Key → Key → Type 0
Is k k' = k' ≡ k

-- Whatever the join yields for the action `a` is the output `k`, now and after other puts.
abbrev pub Names : Key → Key → Catalog → Type 0
Names a k c = All (λ e. e.action_id ≡ a → Bound (Is k) c e) c.entries

-- The step is not a put of the action `a`.
abbrev pub Avoids : Key → Step → Type 0
Avoids a (put e) = e.action_id ≢ a
Avoids a _ = Unit

module _ (a k : Key) (c : Catalog) (n : Names a k c) where
  Names_outputs :
      (c' : Catalog)
      → ((e : EntryRow) → Bound (Is k) c e → Bound (Is k) c' e)
      → All (λ e. e.action_id ≡ a → Bound (Is k) c' e) c.entries
  Names_outputs c' h =
      All-imp (λ e. e.action_id ≡ a → Bound (Is k) c e) (λ e. e.action_id ≡ a → Bound (Is k) c' e)
        c.entries (λ e b q. h e (b q)) n

  upsert_entry_row-Names : (row : EntryRow) → row.action_id ≢ a → Names a k (upsert_entry_row row c)
  unfolding upsert_entry_row
  upsert_entry_row-Names row ne =
      elim (Option-cases (find (has_action_id row.action_id) c.entries)) [
        | inl miss ↦
            rw (miss, upsert_entry_row)
              (All-append (λ e. e.action_id ≡ a → Bound (Is k) c e) c.entries (row ∷ []) n
                (λ q. absurd (ne q), tt))
        | inr (e, hit) ↦
            rw (hit, upsert_entry_row)
              (All-update_where (λ e. e.action_id ≡ a → Bound (Is k) c e)
                (has_action_id row.action_id) (λ _. row) c.entries (λ _ _ _ q. absurd (ne q)) n)
      ]

put-Names_other :
    (a k : Key) (e : Entry) (c : Catalog)
    → e.action_id ≢ a
    → Names a k c
    → Names a k (record_put e c)
unfolding record_put
put-Names_other a k e c ne n =
    let c' = (upsert_output e.output_id e.size e.compressed_size e.accessed_at c).1 in
    upsert_entry_row-Names a k c'
      (rw (entries-upsert_output e.output_id e.size e.compressed_size e.accessed_at c) (
        Names_outputs a k c n c' (λ r b.
          Bound-upsert_output (Is k) c r b e.output_id e.size e.compressed_size e.accessed_at)))
      (entry_row e (upsert_output e.output_id e.size e.compressed_size e.accessed_at c).0) ne

apply-Names :
    (a k : Key) (s : Step) (c : Catalog) → Avoids a s → Names a k c → Names a k (apply s c)
unfolding apply
apply-Names a k (put e) c ne n = put-Names_other a k e c ne n
apply-Names a k (forget b) c _ n =
    All-delete_where (λ e. e.action_id ≡ a → Bound (Is k) c e) (has_action_id b) c.entries n
apply-Names a k (stale_entry b t) c _ n =
    All-delete_where (λ e. e.action_id ≡ a → Bound (Is k) c e) _ c.entries n
apply-Names a k (read_entry b t) c _ n =
    All-update_where (λ e. e.action_id ≡ a → Bound (Is k) c e) (has_action_id b) _ c.entries
      (λ e _ h. h) n
apply-Names a k (drop_output o) c _ n =
    Names_outputs a k c n (apply (drop_output o) c)
      (λ e b. Bound-delete_outputs (Is k) c e b (has_output_id o))
apply-Names a k (evict o t) c _ n =
    Names_outputs a k c n (apply (evict o t) c) (λ e b. Bound-delete_outputs (Is k) c e b _)
apply-Names a k (stale_output o t) c _ n =
    Names_outputs a k c n (apply (stale_output o t) c) (λ e b. Bound-delete_outputs (Is k) c e b _)
apply-Names a k (read_output o t) c _ n =
    Names_outputs a k c n (apply (read_output o t) c)
      (λ e b. Bound-update_outputs (Is k) c e b (has_output_id o) _ (λ _. refl) (λ _. refl))
apply-Names a k (classify_blob o m v) c _ n =
    Names_outputs a k c n (apply (classify_blob o m v) c)
      (λ e b. Bound-update_outputs (Is k) c e b (has_output_id o) _ (λ _. refl) (λ _. refl))
apply-Names a k (classify_retained o m v) c _ n =
    Names_outputs a k c n (apply (classify_retained o m v) c)
      (λ e b. Bound-update_outputs (Is k) c e b (has_output_id o) _ (λ _. refl) (λ _. refl))
apply-Names a k (open_run r p t) c _ n = n
apply-Names a k (close_run r) c _ n = n

run-Names :
    (a k : Key) (ss : List Step) (c : Catalog)
    → All (Avoids a) ss
    → Names a k c
    → Names a k (run ss c)
unfolding run
run-Names a k [] c _ n = n
run-Names a k (s ∷ ss) c av n = run-Names a k ss (apply s c) av.1 (apply-Names a k s c av.0 n)

upsert_entry_row-Names_self :
    (row : EntryRow) (k : Key) (c : Catalog)
    → Bound (Is k) c row
    → Names row.action_id k (upsert_entry_row row c)
unfolding upsert_entry_row
upsert_entry_row-Names_self row k c b =
    elim (Option-cases (find (has_action_id row.action_id) c.entries)) [
      | inl miss ↦
          rw (miss, upsert_entry_row)
            (All-append (λ e. e.action_id ≡ row.action_id → Bound (Is k) c e) c.entries (row ∷ [])
              (All-imp (λ e. has_action_id row.action_id e ≡ false)
                (λ e. e.action_id ≡ row.action_id → Bound (Is k) c e) c.entries
                (λ e f q. absurd (ground (arith, same_iff e.action_id row.action_id)))
                (All-of_find-none (has_action_id row.action_id) c.entries miss))
              (λ _. b, tt))
      | inr (e, hit) ↦
          rw (hit, upsert_entry_row)
            (All-update_where-All (λ e. e.action_id ≡ row.action_id → Bound (Is k) c e)
              (has_action_id row.action_id) (λ _. row) c.entries (λ _ _ _. b)
              (λ e f q. absurd (ground (arith, same_iff e.action_id row.action_id))))
    ]

put-Names :
    (e : Entry) {c : Catalog} → IsWellFormed c → Names e.action_id e.output_id (record_put e c)
unfolding record_put
put-Names e {c} w =
    let r = upsert_output e.output_id e.size e.compressed_size e.accessed_at c in
    upsert_entry_row-Names_self (entry_row e r.0) e.output_id r.1
      (upsert_output-names e.output_id e.size e.compressed_size e.accessed_at c w)

-- What a lookup finds, taken apart.
resolve_found :
    (a : Key) (c : Catalog) (x : Entry)
    → lookup_entry a c ≡ found x
    → (e : EntryRow) × (o : OutputRow) × (find (has_action_id a) c.entries ≡ some e)
      × (find (has_id e.output) c.outputs ≡ some o)
      × (x.output_id ≡ o.output_id)
unfolding lookup_entry resolve check_tag
resolve_found a c x h = elim (Option-cases (find (has_action_id a) c.entries)) [
  | inl miss ↦ absurd (ground arith)
  | inr (e, hit) ↦ elim (Option-cases (find (has_id e.output) c.outputs)) [
    | inl gone ↦ absurd (ground arith)
    | inr (o, there) ↦ (e, o, hit, there, ground arith)
  ]
]

lookup-Names :
    (a k : Key) (c : Catalog) (x : Entry)
    → Names a k c
    → lookup_entry a c ≡ found x
    → x.output_id ≡ k
lookup-Names a k c x n h =
    let (e, o, hit, there, same_output) = resolve_found a c x h in
    let action : e.action_id ≡ a =
      (same_iff e.action_id a).0 (find_test (has_action_id a) c.entries e hit) in
    let id : o.id ≡ e.output = ground (arith, find_test (has_id e.output) c.outputs o there) in
    let bound =
      All-find (λ e. e.action_id ≡ a → Bound (Is k) c e) (has_action_id a) c.entries e n hit in
    let key =
      All-find (λ o. o.id ≡ e.output → o.output_id ≡ k) (has_id e.output) c.outputs o
        (bound action).1 there in
    cc (same_output, key id)

-- No wrong artifact: once a put has recorded that an action produced an output, a lookup of that
-- action after any further steps that are not a put of the same action misses or names that very
-- output, although outputs are evicted, expired, dropped and put again in between.
pub lookup-run_put :
    (e : Entry) (ss : List Step) (x : Entry) {c : Catalog}
    → IsWellFormed c
    → All (Avoids e.action_id) ss
    → lookup_entry e.action_id (run ss (record_put e c)) ≡ found x
    → x.output_id ≡ e.output_id
lookup-run_put e ss x {c} w av h =
    lookup-Names e.action_id e.output_id (run ss (record_put e c)) x
      (run-Names e.action_id e.output_id ss (record_put e c) av (put-Names e w)) h

resolve_mismatch :
    (a : Key) (c : Catalog)
    → lookup_entry a c ≡ tag_mismatch
    → (e : EntryRow) × (o : OutputRow) × (find (has_action_id a) c.entries ≡ some e)
      × (find (has_id e.output) c.outputs ≡ some o)
      × (same e.output_tag (output_tag o.output_id) ≡ false)
unfolding lookup_entry resolve check_tag
resolve_mismatch a c h = elim (Option-cases (find (has_action_id a) c.entries)) [
  | inl miss ↦ absurd (ground arith)
  | inr (e, hit) ↦ elim (Option-cases (find (has_id e.output) c.outputs)) [
    | inl gone ↦ absurd (ground arith)
    | inr (o, there) ↦ (e, o, hit, there, ground arith)
  ]
]

agree : (a : Key) (c : Catalog) → IsWellFormed c → lookup_entry a c ≢ tag_mismatch
agree a c w h =
    let (e, o, hit, there, differ) = resolve_mismatch a c h in
    let id : o.id ≡ e.output = ground (arith, find_test (has_id e.output) c.outputs o there) in
    let sound = All-find (IsSound c) (has_action_id a) c.entries e w.sound hit in
    let tag =
      All-find (λ o. o.id ≡ e.output → output_tag o.output_id ≡ e.output_tag) (has_id e.output)
        c.outputs o sound.1 there in
    ground (arith, tag id, differ, same_iff e.output_tag (output_tag o.output_id))

-- From a well-formed catalog the check of the tag never fires, whatever steps have been made.
pub lookup-ne-tag_mismatch :
    (ss : List Step) (a : Key) {c : Catalog}
    → IsWellFormed c
    → lookup_entry a (run ss c) ≢ tag_mismatch
lookup-ne-tag_mismatch ss a {c} w = agree a (run ss c) (run-IsWellFormed ss w)
