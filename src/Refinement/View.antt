-- ===== src/Refinement/View.antt =====
-- The catalog as an abstract map from actions to the outputs that they produced.
use gocachez.Prelude.{
  ◌≡◌, ◌≢◌, ◌⊎◌, refl, Option, none, some, List, [], find, same, Bool-cases, Option-cases, inl, inr,
  if◌then◌else◌,
}
use gocachez.Catalog.{
  Key, OutputRow, EntryRow, Catalog, Lookup, no_rows, tag_mismatch, found, has_action_id, has_id,
  output_tag, lookup_entry, resolve, check_tag,
}
use gocachez.Catalog.WellFormed.{IsWellFormed}
use gocachez.Catalog.Steps.{
  Step, put, forget, drop_output, read_entry, read_output, evict, stale_entry, stale_output,
  classify_blob, classify_retained, open_run, close_run, run,
}
use gocachez.Catalog.Soft.{lookup-ne-tag_mismatch}

-- Which output a lookup of an action names.
abbrev pub ActionMap : Type 0
ActionMap = Key → Option Key

unfoldable pub output_named : Lookup → Option Key
output_named no_rows = none
output_named tag_mismatch = none
output_named (found e) = some e.output_id

unfoldable pub view : Catalog → ActionMap
view c a = output_named (lookup_entry a c)

-- The map without the actions that name an output.
unfoldable pub forgetting : Key → Option Key → Option Key
forgetting k none = none
forgetting k (some l) = if same l k then none else some l

-- What each step is on the map. An eviction or an expiry may forget what it is about, and nothing
-- else; whether it does depends on times, which the map does not have.
unfoldable pub Abstract : Step → ActionMap → ActionMap → Type 0
Abstract (put e) m m' = (a : Key) → m' a ≡ (if same e.action_id a then some e.output_id else m a)
Abstract (forget b) m m' = (a : Key) → m' a ≡ (if same b a then none else m a)
Abstract (drop_output k) m m' = (a : Key) → m' a ≡ forgetting k (m a)
Abstract (evict k t) m m' = (a : Key) → (m' a ≡ m a) ⊎ (m' a ≡ forgetting k (m a))
Abstract (stale_output k t) m m' = (a : Key) → (m' a ≡ m a) ⊎ (m' a ≡ forgetting k (m a))
Abstract (stale_entry b t) m m' =
    (a : Key) → (m' a ≡ m a) ⊎ (m' a ≡ (if same b a then none else m a))
Abstract (read_entry b t) m m' = (a : Key) → m' a ≡ m a
Abstract (read_output k t) m m' = (a : Key) → m' a ≡ m a
Abstract (classify_blob k n v) m m' = (a : Key) → m' a ≡ m a
Abstract (classify_retained k n v) m m' = (a : Key) → m' a ≡ m a
Abstract (open_run r p t) m m' = (a : Key) → m' a ≡ m a
Abstract (close_run r) m m' = (a : Key) → m' a ≡ m a

-- The same without the check of the tag, as a function of the rows that are found.
abbrev pub key_of : Option OutputRow → Option Key
key_of none = none
key_of (some o) = some o.output_id

unfoldable pub named_by : Option EntryRow → List OutputRow → Option Key
named_by none outputs = none
named_by (some e) outputs = key_of (find (has_id e.output) outputs)

abbrev pub named : Catalog → ActionMap
named c a = named_by (find (has_action_id a) c.entries) c.outputs

pub view-named : (c : Catalog) (a : Key) → IsWellFormed c → view c a ≡ named c a
unfolding view output_named lookup_entry resolve check_tag named_by
view-named c a w =
    let agrees : lookup_entry a c ≢ tag_mismatch = unfold run in lookup-ne-tag_mismatch [] a w in
    elim (Option-cases (find (has_action_id a) c.entries)) [
      | inl n ↦ rw n refl
      | inr (e, h) ↦ elim (Option-cases (find (has_id e.output) c.outputs)) [
        | inl n ↦ rw (h, resolve, named_by, n) refl
        | inr (o, k) ↦ elim (Bool-cases (same e.output_tag (output_tag o.output_id))) [
          | inl t ↦ rw (h, resolve, named_by, k, check_tag, t) refl
          | inr f ↦ absurd (agrees (rw (h, resolve, k, check_tag, f) refl))
        ]
      ]
    ]
