-- ===== src/Expiry/Scan.antt =====
-- How a batch of `deleteStaleEntries` moves the cursor on.
use mathlib.Core.Path.{subst}
use gocachez.Prelude.{
  ◌<◌, ◌≡◌, ◌≢◌, ap, ◌∙◌, Bool, true, false, not, ◌&&◌, ◌||◌, List, ◌∷◌, map, select, length, arith,
  Bool-cases, inl, inr, All, All-imp, All-intro,
}
use gocachez.Prelude.Int.{ℤ, ltb_ℤ}
use gocachez.Catalog.{Key, EntryRow, delete_where}
use gocachez.Expiry.{bytes_before, sort_by, last_key, age_batch, stale_action_ids}
use gocachez.Expiry.Sort.{
  has_key, Covered, take-Covered, sort_by-Sorted, sort_by-All, sort_by-All_back, bytes_before_trans,
}
use gocachez.Expiry.Select.{
  select-eq, select-select, select-none, has_key-All, last_key-All, take-All, map-select-All,
  map-select-All_back, length-zero, has_key-head, length-select-or,
}
use gocachez.Expiry.Rows.{is_taken}

-- What is left for the scan behind a cursor.
abbrev pub left : ℤ → Key → EntryRow → Bool
left cutoff cursor e = ltb_ℤ e.accessed_at cutoff && bytes_before cursor e.action_id

module _ (cutoff : ℤ) (cursor : Key) (xs : List EntryRow) (k : Key) (ks : List Key)
    (ids : stale_action_ids cutoff cursor xs ≡ k ∷ ks) where
  abbrev pub taken : EntryRow → Bool
  taken = is_taken (λ e. e.action_id) (λ e. e.accessed_at) cutoff (k ∷ ks)

  abbrev keys : List Key
  keys = map (λ e. e.action_id) (select (left cutoff cursor) xs)

  covered : All (λ e. left cutoff cursor e ≡ true → Covered k ks e.action_id) xs
  unfolding stale_action_ids
  covered =
      map-select-All_back (λ e. e.action_id) (left cutoff cursor) (Covered k ks) xs
        (sort_by-All_back bytes_before (Covered k ks) keys
          (take-Covered age_batch (sort_by bytes_before keys) k ks (sort_by-Sorted keys) ids))

  ids-All :
      (P : Key → Type 0)
      → All (λ e. left cutoff cursor e ≡ true → P e.action_id) xs
      → All P (k ∷ ks)
  unfolding stale_action_ids
  ids-All P a = subst (All P) ids (
      take-All P age_batch (sort_by bytes_before keys) (
        sort_by-All bytes_before P keys
          (map-select-All (λ e. e.action_id) (left cutoff cursor) P xs a)))

  past : All (λ x. bytes_before cursor x ≡ true) (k ∷ ks)
  past =
      ids-All (λ x. bytes_before cursor x ≡ true)
        (All-intro (λ e. left cutoff cursor e ≡ true → bytes_before cursor e.action_id ≡ true)
          (λ e t. ground (arith, t)) xs)

  -- A batch takes the rows up to its last key and leaves those behind it.
  moves_on : All (λ e. left cutoff cursor e ≡ (taken e || left cutoff (last_key k ks) e)) xs
  moves_on =
      All-imp _ _ xs
        (λ e c. elim (Bool-cases (left cutoff cursor e)) [
          | inl t ↦ elim (c t) [ inl h ↦ ground (arith, t, h) | inr h ↦ ground (arith, t, h) ]
          | inr f ↦
              let no_key : ltb_ℤ e.accessed_at cutoff ≡ true
                  → has_key (k ∷ ks) e.action_id ≡ true
                  → ⊥ =
                λ s h. ground (
                  arith,
                  f,
                  s,
                  has_key-All (λ x. bytes_before cursor x ≡ true) (k ∷ ks) e.action_id past h,
                ) in
              let not_after : ltb_ℤ e.accessed_at cutoff ≡ true
                  → bytes_before (last_key k ks) e.action_id ≡ true
                  → ⊥ =
                λ s h. ground (
                  arith,
                  f,
                  s,
                  bytes_before_trans cursor (last_key k ks) e.action_id
                      (last_key-All (λ x. bytes_before cursor x ≡ true) k ks past) h,
                ) in
              ground (arith, f, no_key, not_after)
        ])
        covered

  -- A batch is never without rows, since its keys are those of rows that it takes.
  takes_some : length (select taken xs) ≢ 0
  takes_some e =
      let untouched = select-none taken xs (length-zero (select taken xs) e) in
      let strangers : All (λ x. has_key (k ∷ ks) x ≡ false) (k ∷ ks) =
        ids-All (λ x. has_key (k ∷ ks) x ≡ false)
          (All-imp _ _ xs (λ r f t. ground (arith, f, t)) untouched) in
      has_key-head k ks strangers.0

  pub fewer :
      length (select (left cutoff (last_key k ks)) (delete_where taken xs))
      < length (select (left cutoff cursor) xs)
  unfolding delete_where
  fewer = omega (
    arith,
    takes_some,
    ap length (select-eq _ _ xs moves_on),
    length-select-or taken (left cutoff (last_key k ks)) xs,
    ap length (select-select (left cutoff (last_key k ks)) (λ r. not (taken r)) xs),
  )

  pub then_the_rest :
      delete_where (left cutoff (last_key k ks)) (delete_where taken xs)
      ≡ delete_where (left cutoff cursor) xs
  unfolding delete_where
  then_the_rest =
      select-select (λ r. not (left cutoff (last_key k ks) r)) (λ r. not (taken r)) xs
      ∙ select-eq _ _ xs (All-imp _ _ xs (λ r e. ground (arith, e)) moves_on)
