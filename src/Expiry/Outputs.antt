-- ===== src/Expiry/Outputs.antt =====
-- What `deleteStaleOutputs` leaves when nothing fails and nobody else writes.
use mathlib.Core.Path.{subst}
use gocachez.Prelude.{
  ◌-◌, ◌≤◌, ◌≡◌, refl, ap, ◌∙◌, Bool, true, false, not, ◌&&◌, List, [], ◌∷◌, map, take, select,
  length, arith, All, All-imp, All-intro, same_refl,
}
use gocachez.Prelude.Int.{ℤ, ltb_ℤ}
use gocachez.Catalog.{Key, OutputRow, delete_where}
use gocachez.Expiry.{sort_by, age_batch, stale_output_ids}
use gocachez.Expiry.Sort.{has_key, sort_by-length}
use gocachez.Expiry.Select.{
  select-eq, select-select, select_whole, length-select-take, length-zero, map-nil, take-nil,
}
use gocachez.Expiry.Rows.{is_taken}

-- The batches of `deleteStaleOutputs`.
abbrev pub is_stale : ℤ → OutputRow → Bool
is_stale cutoff o = ltb_ℤ o.accessed_at cutoff

has_key-map :
    {A : Type 0} (key : A → Key) (xs : List A) → All (λ x. has_key (map key xs) (key x) ≡ true) xs
unfolding has_key
has_key-map key [] = tt
has_key-map key (x ∷ xs) = (
  ground (arith, same_refl (key x)),
  All-imp _ _ xs (λ y h. ground (arith, h)) (has_key-map key xs),
)

module _ (cutoff : ℤ) (xs : List OutputRow) (k : Key) (ks : List Key)
    (ids : stale_output_ids cutoff xs ≡ k ∷ ks) where
  abbrev pub taken_outputs : OutputRow → Bool
  taken_outputs = is_taken (λ o. o.output_id) (λ o. o.accessed_at) cutoff (k ∷ ks)

  abbrev in_order : List OutputRow
  in_order = sort_by (λ a b. ltb_ℤ a.accessed_at b.accessed_at) (select (is_stale cutoff) xs)

  abbrev outside : OutputRow → Bool
  outside o = not (has_key (k ∷ ks) o.output_id)

  first_ones : All (λ o. outside o ≡ false) (take age_batch in_order)
  unfolding stale_output_ids
  first_ones =
      All-imp (λ o. has_key (k ∷ ks) o.output_id ≡ true) _ (take age_batch in_order)
        (λ o h. ground (arith, h))
        (subst (λ l. All (λ o. has_key l o.output_id ≡ true) (take age_batch in_order)) ids
          (has_key-map (λ o. o.output_id) (take age_batch in_order)))

  pub batch_fewer :
      length (select (is_stale cutoff) (delete_where taken_outputs xs))
      ≤ length (select (is_stale cutoff) xs) - age_batch
  unfolding delete_where
  batch_fewer = omega (
    arith,
    ap length (select-select (is_stale cutoff) (λ o. not (taken_outputs o)) xs),
    ap length (
        select-eq (λ o. not (taken_outputs o) && is_stale cutoff o)
          (λ o. is_stale cutoff o && outside o) xs
          (All-intro
            (λ o. (not (taken_outputs o) && is_stale cutoff o) ≡ (is_stale cutoff o && outside o))
            (λ o. ground arith) xs)),
    ap length (select-select outside (is_stale cutoff) xs),
    sort_by-length (λ a b. ltb_ℤ a.accessed_at b.accessed_at) outside (select (is_stale cutoff) xs),
    sort_by-length (λ a b. ltb_ℤ a.accessed_at b.accessed_at) (λ _. true)
        (select (is_stale cutoff) xs),
    ap length (select_whole (λ _. true) in_order (All-intro _ (λ _. refl) in_order)),
    ap length (
        select_whole (λ _. true) (select (is_stale cutoff) xs)
          (All-intro _ (λ _. refl) (select (is_stale cutoff) xs))),
    length-select-take outside age_batch in_order first_ones,
  )

  pub stale_rest :
      delete_where (is_stale cutoff) (delete_where taken_outputs xs)
      ≡ delete_where (is_stale cutoff) xs
  unfolding delete_where
  stale_rest =
      select-select (λ o. not (is_stale cutoff o)) (λ o. not (taken_outputs o)) xs
      ∙ select-eq _ (λ o. not (is_stale cutoff o)) xs
          (All-intro
            (λ o. (not (taken_outputs o) && not (is_stale cutoff o)) ≡ not (is_stale cutoff o))
            (λ o. ground arith) xs)

pub no_stale :
    (cutoff : ℤ) (xs : List OutputRow)
    → stale_output_ids cutoff xs ≡ []
    → select (is_stale cutoff) xs ≡ []
unfolding stale_output_ids
no_stale cutoff xs e = length-zero (select (is_stale cutoff) xs) (
    omega (
      arith,
      sort_by-length by_access (λ _. true) (select (is_stale cutoff) xs),
      ap length (select_whole (λ _. true) sorted (All-intro _ (λ _. refl) sorted)),
      ap length (
          select_whole (λ _. true) (select (is_stale cutoff) xs)
            (All-intro _ (λ _. refl) (select (is_stale cutoff) xs))),
      ap length (take-nil 1999 sorted (map-nil (λ o. o.output_id) (take age_batch sorted) e)),
    ))
  where
    by_access : OutputRow → OutputRow → Bool
    by_access a b = ltb_ℤ a.accessed_at b.accessed_at

    sorted : List OutputRow
    sorted = sort_by (λ a b. ltb_ℤ a.accessed_at b.accessed_at) (select (is_stale cutoff) xs)
