-- ===== src/Refinement/Outputs.antt =====
-- What the statements on `outputs` are on the map.
use gocachez.Prelude.{
  ℕ, ◌≡◌, ◌⊎◌, refl, ap, ◌∙◌, Bool, true, false, ◌&&◌, some, List, find, same, arith, Bool-cases,
  Option-cases, inl, inr,
}
use gocachez.Catalog.{
  Key, OutputRow, Catalog, update_where, delete_where, has_action_id, has_id, has_output_id,
}
use gocachez.Catalog.Tables.{Apart, find-update_where}
use gocachez.Catalog.WellFormed.{IsWellFormed, Unlike}
use gocachez.Catalog.Found.{find-delete_where-none, find-delete_where_kept, find-delete_where_gone}
use gocachez.Refinement.View.{forgetting, key_of, named_by, named}

-- Rows with one id are one row.
only_id : (i : ℕ) (x y : OutputRow) → Unlike x y → has_id i x ≡ true → has_id i y ≡ false
only_id i x y u t = ground (arith, u.0, t)

-- An update that keeps the columns that identify a row.
module _ (p : OutputRow → Bool) (f : OutputRow → OutputRow)
    (id-f : (o : OutputRow) → (f o).id ≡ o.id)
    (key-f : (o : OutputRow) → (f o).output_id ≡ o.output_id) where
  pub key_of-update_where :
      (i : ℕ) (xs : List OutputRow)
      → key_of (find (has_id i) (update_where p f xs)) ≡ key_of (find (has_id i) xs)
  key_of-update_where i xs =
      ap key_of (find-update_where (has_id i) p f xs (λ o. rw (id-f o) refl))
      ∙ elim (Option-cases (find (has_id i) xs)) [
        | inl n ↦ rw n refl
        | inr (o, e) ↦ elim (Bool-cases (p o)) [
          | inl t ↦ rw (e, t) (ap some (key-f o))
          | inr n ↦ rw (e, n) refl
        ]
      ]

  pub named-update_outputs :
      (c : Catalog) (a : Key)
      → named (record c { outputs = update_where p f c.outputs }) a ≡ named c a
  unfolding named_by
  named-update_outputs c a = elim (Option-cases (find (has_action_id a) c.entries)) [
    | inl n ↦ rw n refl
    | inr (e, h) ↦ rw (h, named_by) (key_of-update_where e.output c.outputs)
  ]

module _ (k : Key) (old : OutputRow → Bool) where
  abbrev doomed : OutputRow → Bool
  doomed o = has_output_id k o && old o

  key_of-delete_where :
      (i : ℕ) (xs : List OutputRow)
      → Apart Unlike xs
      → (key_of (find (has_id i) (delete_where doomed xs)) ≡ key_of (find (has_id i) xs))
        ⊎ (key_of (find (has_id i) (delete_where doomed xs))
            ≡ forgetting k (key_of (find (has_id i) xs)))
  unfolding forgetting
  key_of-delete_where i xs a = elim (Option-cases (find (has_id i) xs)) [
    | inl n ↦ inl (rw (n, find-delete_where-none (has_id i) doomed xs n) refl)
    | inr (o, e) ↦ elim (Bool-cases (doomed o)) [
      | inr f ↦ inl (rw (e, find-delete_where_kept (has_id i) doomed xs o e f) refl)
      | inl t ↦
          let this : same o.output_id k ≡ true = ground (arith, t) in
          inr (
            rw (e, find-delete_where_gone (has_id i) Unlike (only_id i) doomed xs o a e t, this)
              refl)
    ]
  ]

  pub named-delete_outputs :
      (c : Catalog) (a : Key)
      → IsWellFormed c
      → (named (record c { outputs = delete_where doomed c.outputs }) a ≡ named c a)
        ⊎ (named (record c { outputs = delete_where doomed c.outputs }) a
            ≡ forgetting k (named c a))
  unfolding named_by
  named-delete_outputs c a w = elim (Option-cases (find (has_action_id a) c.entries)) [
    | inl n ↦ inl (rw n refl)
    | inr (e, h) ↦ rw (h, named_by) (key_of-delete_where e.output c.outputs w.unlike)
  ]

-- Deleting an output whatever its age forgets every action that names it.
module _ (k : Key) where
  key_of-delete_output :
      (i : ℕ) (xs : List OutputRow)
      → Apart Unlike xs
      → key_of (find (has_id i) (delete_where (has_output_id k) xs))
        ≡ forgetting k (key_of (find (has_id i) xs))
  unfolding forgetting
  key_of-delete_output i xs a = elim (Option-cases (find (has_id i) xs)) [
    | inl n ↦ rw (n, find-delete_where-none (has_id i) (has_output_id k) xs n) refl
    | inr (o, e) ↦ elim (Bool-cases (has_output_id k o)) [
      | inr f ↦ rw (e, find-delete_where_kept (has_id i) (has_output_id k) xs o e f, f) refl
      | inl t ↦
          rw
            (
              e,
              find-delete_where_gone (has_id i) Unlike (only_id i) (has_output_id k) xs o a e t,
              t,
            )
            refl
    ]
  ]

  pub named-delete_output :
      (c : Catalog) (a : Key)
      → IsWellFormed c
      → named (record c { outputs = delete_where (has_output_id k) c.outputs }) a
        ≡ forgetting k (named c a)
  unfolding named_by forgetting
  named-delete_output c a w = elim (Option-cases (find (has_action_id a) c.entries)) [
    | inl n ↦ rw n refl
    | inr (e, h) ↦ rw (h, named_by) (key_of-delete_output e.output c.outputs w.unlike)
  ]
