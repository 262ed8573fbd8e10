-- ===== src/Maintenance/Unlink.antt =====
-- What eviction does to the blobs.
use gocachez.Prelude.{
  ℕ, ◌+◌, ◌≡◌, refl, sym, ◌∙◌, ◌≢◌, Bool, true, false, some, List, [], ◌∷◌, same, select, arith,
  Bool-cases, inl, inr, All, All-imp, All-find, find, length, ltb, same_iff,
}
use gocachez.Prelude.Int.{ℤ, pos, leb_ℤ, ◌-ℤ◌}
use gocachez.Catalog.{Key, OutputRow, delete_where, has_output_id}
use gocachez.Catalog.Listing.{compressed_size}
use gocachez.Catalog.Tables.{Apart, All-delete_where, Apart-delete_where, find_test}
use gocachez.Catalog.WellFormed.{Unlike}
use gocachez.Store.State.{update}
use gocachez.Maintenance.Evict.{PruneCandidate, Cache, Round, evict_each, evict_to_max_size}
use gocachez.Maintenance.Rounds.{
  tables, enough, stopped, unlinked, kept, gone, turn, doomed, outputs-evict_output,
  removed-evict_output, evict_each-All,
}

pub select-nil :
    (c : PruneCandidate) (xs : List OutputRow)
    → All (λ o. has_output_id c.output_id o ≡ false) xs
    → (select (doomed c) xs ≡ []) × (delete_where (doomed c) xs ≡ xs)
unfolding select delete_where
select-nil c [] a = (refl, refl)
select-nil c (x ∷ xs) a =
    let ih = select-nil c xs a.1 in (ground (arith, a.0, ih.0), ground (arith, a.0, ih.1))

pub alone :
    (c : PruneCandidate) (x : OutputRow) (xs : List OutputRow)
    → has_output_id c.output_id x ≡ true
    → All (Unlike x) xs
    → All (λ o. has_output_id c.output_id o ≡ false) xs
alone c x xs t a =
    All-imp (Unlike x) (λ o. has_output_id c.output_id o ≡ false) xs
      (λ o u. elim (Bool-cases (has_output_id c.output_id o)) [
        | inr f ↦ f
        | inl e ↦ absurd (
            u.1 (
              (same_iff x.output_id c.output_id).0 t
              ∙ sym ((same_iff o.output_id c.output_id).0 e)))
      ])
      a

-- Where a row of the key was removed and keys are unique, no row of the key is left.
pub removed_rows :
    (c : PruneCandidate) (xs : List OutputRow)
    → Apart Unlike xs
    → ltb 0 (length (select (doomed c) xs)) ≡ true
    → All (λ o. has_output_id c.output_id o ≡ false) (delete_where (doomed c) xs)
unfolding delete_where select
removed_rows c [] a h = tt
removed_rows c (x ∷ xs) a h = elim (Bool-cases (has_output_id c.output_id x)) [
  | inl t ↦
      let rest = alone c x xs t a.0 in
      elim (Bool-cases (leb_ℤ x.accessed_at c.accessed_at)) [
        | inl old ↦
            rw (t, old, delete_where)
              (All-delete_where (λ o. has_output_id c.output_id o ≡ false) (doomed c) xs rest)
        | inr fresh ↦ absurd (ground (arith, t, fresh, (select-nil c xs rest).0))
      ]
  | inr f ↦ rw (f, delete_where) (f, removed_rows c xs a.1 (ground (arith, f)))
]

pub tables-Apart :
    (rounds : ℕ → Round) (max_size : ℤ) (c : PruneCandidate) (cs : List PruneCandidate) (n : ℕ)
    (total : ℤ) (s : Cache)
    → Apart Unlike s.catalog.outputs
    → Apart Unlike (tables rounds max_size c cs n total s).outputs
tables-Apart rounds max_size c cs n total s a =
    rw (outputs-evict_output c s.catalog) (Apart-delete_where Unlike (doomed c) s.catalog.outputs a)

module _ (rounds : ℕ → Round) (max_size : ℤ) (k : Key) where
  apart_keys :
      (j : Key) (o : OutputRow)
      → has_output_id j o ≡ false
      → same j k ≡ true
      → has_output_id k o ≢ true
  apart_keys j o f e t = ground (arith, f, rw (sym ((same_iff j k).0 e)) at t)

  evict_each-blobs :
      (cs : List PruneCandidate) (n : ℕ) (total : ℤ) (s : Cache) (o : OutputRow)
      → Apart Unlike s.catalog.outputs
      → find (has_output_id k) (evict_each rounds max_size cs n total s).1.catalog.outputs ≡ some o
      → (evict_each rounds max_size cs n total s).1.blobs k ≡ s.blobs k
  evict_each-blobs [] n total s o a h = unfold evict_each in refl
  evict_each-blobs (c ∷ cs) n total s o a h =
      let less = tables-Apart rounds max_size c cs n total s a in
      elim (turn rounds max_size c cs n total s) [
        | enough t e ↦ rw e refl
        | stopped e ↦ rw e refl
        | unlinked t e ↦ rw e refl
        | kept t e ↦ rw e (evict_each-blobs cs (n + 1) total _ o less (rw e at h))
        | gone t e ↦
            let later = evict_each-blobs cs (n + 1) (total -ℤ pos c.size) _ o less (rw e at h) in
            elim (Bool-cases (same c.output_id k)) [
              | inr other ↦ rw e (later ∙ unfold update in rw other refl)
              | inl this ↦
                  let left =
                    evict_each-All (λ o. has_output_id c.output_id o ≡ false) rounds max_size cs
                      (n + 1) (total -ℤ pos c.size) _
                      (rw (outputs-evict_output c s.catalog) (
                        removed_rows c s.catalog.outputs a
                          (sym (removed-evict_output c s.catalog) ∙ t))) in
                  let found = rw e at h in
                  let none_is =
                    All-find (λ o. has_output_id c.output_id o ≡ false) (has_output_id k) _ o left
                      found in
                  absurd
                    (apart_keys c.output_id o none_is this (find_test (has_output_id k) _ o found))
            ]
      ]

-- An eviction during which no other process acts on the cache never takes the blob of an output
-- that stays in the catalog: where output IDs are unique, an output that has a row afterwards has
-- the blob that it had before, whatever fails on the way and however stale the candidates are. (A
-- put of the output between the delete of its row and the unlink of its blob is not covered.)
pub evict_to_max_size-blobs :
    (rounds : ℕ → Round) (sized : Bool) (max_size : ℤ) (cs : List PruneCandidate) (s : Cache)
    (k : Key) (o : OutputRow)
    → Apart Unlike s.catalog.outputs
    → find (has_output_id k) (evict_to_max_size rounds sized max_size cs s).1.catalog.outputs
      ≡ some o
    → (evict_to_max_size rounds sized max_size cs s).1.blobs k ≡ s.blobs k
unfolding evict_to_max_size
evict_to_max_size-blobs rounds sized max_size [] s k o a h = refl
evict_to_max_size-blobs rounds sized max_size (c ∷ cs) s k o a h = elim (Bool-cases sized) [
  | inl t ↦ rw t (
      evict_each-blobs rounds max_size k (c ∷ cs) 0 (pos (compressed_size s.catalog)) s o a
        (rw t at h))
  | inr f ↦ rw f refl
]
