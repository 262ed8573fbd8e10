-- ===== src/Catalog/Steps.antt =====
-- The statements of catalog.go as steps of one catalog, in any order and with any arguments, as
-- builds and maintenance interleave them.
use gocachez.Prelude.{ℕ, ◌&&◌, List, [], ◌∷◌, String}
use gocachez.Prelude.Int.{ℤ, ltb_ℤ}
use gocachez.Catalog.{
  Key, Catalog, Entry, delete_where, has_output_id, has_action_id, delete_action, delete_output,
  touch_entry, touch_output, evict_output, update_blob_type, update_retained_type, register_run,
  delete_run,
}
use gocachez.Catalog.Put.{record_put}

-- The statement of `deleteStaleByKey` at one key, on either table.
unfoldable pub expire_entry : Key → ℤ → Catalog → Catalog
expire_entry key cutoff c = record c {
  entries = delete_where (λ e. has_action_id key e && ltb_ℤ e.accessed_at cutoff) c.entries;
}

unfoldable pub expire_output : Key → ℤ → Catalog → Catalog
expire_output key cutoff c = record c {
  outputs = delete_where (λ o. has_output_id key o && ltb_ℤ o.accessed_at cutoff) c.outputs;
}

pub data Step : Type 0 where
  put : Entry → Step
  forget : Key → Step
  drop_output : Key → Step
  read_entry : Key → ℤ → Step
  read_output : Key → ℤ → Step
  evict : Key → ℤ → Step
  stale_entry : Key → ℤ → Step
  stale_output : Key → ℤ → Step
  classify_blob : Key → ℕ → ℕ → Step
  classify_retained : Key → ℕ → ℕ → Step
  open_run : String → String → ℤ → Step
  close_run : String → Step

unfoldable pub apply : Step → Catalog → Catalog
unfolding delete_action delete_output touch_entry touch_output evict_output update_blob_type
    update_retained_type register_run delete_run expire_entry expire_output
apply (put e) c = record_put e c
apply (forget a) c = delete_action a c
apply (drop_output k) c = delete_output k c
apply (read_entry a t) c = touch_entry a t c
apply (read_output k t) c = touch_output k t c
apply (evict k t) c = (evict_output k t c).1
apply (stale_entry a t) c = expire_entry a t c
apply (stale_output k t) c = expire_output k t c
apply (classify_blob k n v) c = update_blob_type k n v c
apply (classify_retained k n v) c = update_retained_type k n v c
apply (open_run r p t) c = register_run r p t c
apply (close_run r) c = delete_run r c

unfoldable pub run : List Step → Catalog → Catalog
run [] c = c
run (s ∷ ss) c = run ss (apply s c)
