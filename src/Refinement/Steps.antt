-- ===== src/Refinement/Steps.antt =====
-- Every step of the catalog is a step of the map.
use mathlib.Core.Path.{subst}
use gocachez.Prelude.{
  ◌≡◌, refl, sym, ap, ◌∙◌, some, same, same_iff, Bool-cases, inl, inr, if◌then◌else◌,
}
use gocachez.Prelude.Int.{leb_ℤ, ltb_ℤ}
use gocachez.Catalog.{
  Key, Catalog, Entry, has_output_id, delete_action, delete_output, touch_entry, touch_output,
  evict_output, update_blob_type, update_retained_type, register_run, delete_run,
}
use gocachez.Catalog.Put.{record_put}
use gocachez.Catalog.WellFormed.{IsWellFormed}
use gocachez.Catalog.Steps.{
  Step, put, forget, drop_output, read_entry, read_output, evict, stale_entry, stale_output,
  classify_blob, classify_retained, open_run, close_run, apply, expire_entry, expire_output,
}
use gocachez.Catalog.Reads.{lookup-put}
use gocachez.Refinement.View.{view, Abstract, named, view-named, output_named}
use gocachez.Catalog.Invariant.{apply-IsWellFormed}
use gocachez.Refinement.Outputs.{named-update_outputs, named-delete_outputs, named-delete_output}
use gocachez.Refinement.Entries.{named-touch_entry, named-delete_action, named-expire_entry}
use gocachez.Refinement.Puts.{named-record_put_other}

view-put :
    (e : Entry) (c : Catalog) (a : Key)
    → IsWellFormed c
    → named (record_put e c) a ≡ (if same e.action_id a then some e.output_id else named c a)
view-put e c a w = elim (Bool-cases (same e.action_id a)) [
  | inr f ↦ rw f (named-record_put_other e c a w f)
  | inl t ↦
      let this : e.action_id ≡ a = (same_iff e.action_id a).0 t in
      let after : IsWellFormed (record_put e c) = unfold apply in apply-IsWellFormed (put e) w in
      rw t (
        ap (named (record_put e c)) (sym this)
        ∙ sym (view-named (record_put e c) e.action_id after)
        ∙ unfold view output_named in rw (lookup-put e w) refl)
]

named-Abstract :
    (s : Step) (c : Catalog) → IsWellFormed c → Abstract s (named c) (named (apply s c))
unfolding Abstract apply touch_entry touch_output update_blob_type update_retained_type evict_output
    delete_action delete_output expire_entry expire_output register_run delete_run
named-Abstract (put e) c w = λ a. view-put e c a w
named-Abstract (forget b) c w = named-delete_action b c
named-Abstract (drop_output k) c w = λ a. named-delete_output k c a w
named-Abstract (read_entry b t) c w = named-touch_entry b t c
named-Abstract (read_output k t) c w =
    named-update_outputs (has_output_id k) (λ o. record o { accessed_at = t }) (λ o. refl)
      (λ o. refl) c
named-Abstract (evict k t) c w = λ a. named-delete_outputs k (λ o. leb_ℤ o.accessed_at t) c a w
named-Abstract (stale_entry b t) c w = λ a. named-expire_entry b (λ e. ltb_ℤ e.accessed_at t) c a w
named-Abstract (stale_output k t) c w =
    λ a. named-delete_outputs k (λ o. ltb_ℤ o.accessed_at t) c a w
named-Abstract (classify_blob k n v) c w =
    named-update_outputs (has_output_id k)
      (λ o. record o { blob_type = some n; blob_type_version = some v }) (λ o. refl) (λ o. refl) c
named-Abstract (classify_retained k n v) c w =
    named-update_outputs (has_output_id k)
      (λ o. record o { retained_type = some n; retained_type_version = some v }) (λ o. refl)
      (λ o. refl) c
named-Abstract (open_run r p t) c w = λ a. refl
named-Abstract (close_run r) c w = λ a. refl

-- The catalog refines a map from actions to the outputs that they produced: from a well-formed
-- catalog, each step does to what lookups name what it is on the map. A put sets its action and
-- nothing else, forgetting an action removes it and nothing else, dropping an output removes exactly
-- the actions that name it; an eviction or an expiry leaves an action as it was or removes what it
-- is about; reads, classifications and runs change nothing. Rows, ids, tags and times do not show.
pub view-Abstract :
    (s : Step) (c : Catalog) → IsWellFormed c → Abstract s (view c) (view (apply s c))
view-Abstract s c w =
    let c' = apply s c in
    let before : named c ≡ view c = λ i a. sym (view-named c a w) i in
    let after : named c' ≡ view c' = λ i a. sym (view-named c' a (apply-IsWellFormed s w)) i in
    subst (λ m. Abstract s m (view c')) before
      (subst (Abstract s (named c)) after (named-Abstract s c w))
