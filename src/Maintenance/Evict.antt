-- ===== src/Maintenance/Evict.antt =====
-- `evictToMaxSize` of cache.go, for any list of candidates, however stale it is.
use gocachez.Prelude.{
  ℕ, ◌+◌, ◌≡◌, refl, Bool, true, false, ◌&&◌, ◌||◌, Option, none, some, List, [], ◌∷◌, Bytes,
  select, if◌then◌else◌, arith, Bool-cases, inl, inr,
}
use gocachez.Prelude.Int.{ℤ, pos, leb_ℤ, ◌-ℤ◌}
use gocachez.Catalog.{Key, OutputRow, Catalog, delete_where, has_output_id, evict_output}
use gocachez.Catalog.Listing.{compressed_size}
use gocachez.Store.State.{Map, update}

-- `pruneCandidate`
pub record PruneCandidate : Type 0 where
  pub output_id : Key
  pub id : ℕ
  pub size : ℕ
  pub accessed_at : ℤ

-- What eviction works on: the catalog, and the compressed blobs by output.
pub record Cache : Type 0 where
  pub catalog : Catalog
  pub blobs : Map Bytes

-- How one round of the loop goes: `unlink_fails` is also a stripe that cannot be locked.
pub data Round : Type 0 where
  fine row_fails unlink_fails : Round

-- The loop: the outputs that were evicted, or an error, and the cache after it. `rounds` tells how
-- each round goes. No other process acts on the cache during the loop; the source allows a put of
-- an output between the delete of its row and the unlink of its blob, which ends in a miss.
unfoldable pub evict_each :
    (ℕ → Round) → ℤ → List PruneCandidate → ℕ → ℤ → Cache → Option (List Key) × Cache
evict_each rounds max_size [] n total s = (some [], s)
evict_each rounds max_size (c ∷ cs) n total s = elim (leb_ℤ total max_size) [
  | true ↦ (some [], s)
  | false ↦
      let (removed, catalog) = evict_output c.output_id c.accessed_at s.catalog in
      elim (rounds n) [
        | row_fails ↦ (none, s)
        | unlink_fails ↦ elim removed [
          | true ↦ (none, record s { catalog = catalog })
          | false ↦ evict_each rounds max_size cs (n + 1) total (record s { catalog = catalog })
        ]
        | fine ↦ elim removed [
          | true ↦
              let (evicted, s') =
                evict_each rounds max_size cs (n + 1) (total -ℤ pos c.size)
                  (record s { catalog = catalog; blobs = update c.output_id none s.blobs }) in
              (elim evicted [ none ↦ none | some keys ↦ some (c.output_id ∷ keys) ], s')
          | false ↦ evict_each rounds max_size cs (n + 1) total (record s { catalog = catalog })
        ]
      ]
]

-- `evictToMaxSize`. `sized` is whether the total could be read.
unfoldable pub evict_to_max_size :
    (ℕ → Round) → Bool → ℤ → List PruneCandidate → Cache → Option (List Key) × Cache
evict_to_max_size rounds sized max_size [] s = (some [], s)
evict_to_max_size rounds sized max_size (c ∷ cs) s =
    if sized
    then evict_each rounds max_size (c ∷ cs) 0 (pos (compressed_size s.catalog)) s
    else (none, s)

-- The row was chosen: a candidate names it, and nothing has accessed it since.
unfoldable pub is_chosen : List PruneCandidate → OutputRow → Bool
is_chosen [] o = false
is_chosen (c ∷ cs) o =
    (has_output_id c.output_id o && leb_ℤ o.accessed_at c.accessed_at) || is_chosen cs o

-- Deleting rows that a filter drops anyway changes nothing for the filter.
pub select-delete_where :
    {A : Type 0} (p d : A → Bool)
    → ((x : A) → p x ≡ true → d x ≡ false)
    → (xs : List A) → select p (delete_where d xs) ≡ select p xs
unfolding select delete_where
select-delete_where p d h [] = refl
select-delete_where p d h (x ∷ xs) = elim (Bool-cases (p x)) [
  | inl t ↦ ground (arith, t, h x t, select-delete_where p d h xs)
  | inr f ↦ ground (arith, f, select-delete_where p d h xs)
]
