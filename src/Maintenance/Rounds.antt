-- ===== src/Maintenance/Rounds.antt =====
-- The rounds of the eviction loop, and the rows that it keeps.
use gocachez.Prelude.{
  ℕ, ◌+◌, ◌≡◌, refl, ◌∙◌, ◌⊎◌, Bool, true, false, not, ◌&&◌, Option, none, some, List, [], ◌∷◌,
  select, arith, Bool-cases, inl, inr, All, length, ltb,
}
use gocachez.Prelude.Int.{ℤ, pos, leb_ℤ, ◌-ℤ◌}
use gocachez.Catalog.{Key, OutputRow, Catalog, delete_where, has_output_id, evict_output}
use gocachez.Catalog.Listing.{compressed_size}
use gocachez.Catalog.Tables.{All-delete_where}
use gocachez.Store.State.{update}
use gocachez.Maintenance.Evict.{
  PruneCandidate, Cache, Round, fine, row_fails, unlink_fails, evict_each, evict_to_max_size,
  is_chosen, select-delete_where,
}

abbrev pub prepend : Key → Option (List Key) → Option (List Key)
prepend k none = none
prepend k (some ks) = some (k ∷ ks)

-- One round: the loop ends, or it goes on with the row kept or removed.
module _ (rounds : ℕ → Round) (max_size : ℤ) (c : PruneCandidate) (cs : List PruneCandidate) (n : ℕ)
    (total : ℤ) (s : Cache) where
  abbrev pub removed : Bool
  removed = (evict_output c.output_id c.accessed_at s.catalog).0

  abbrev pub tables : Catalog
  tables = (evict_output c.output_id c.accessed_at s.catalog).1

  abbrev pub next : Option (List Key) × Cache
  next =
      evict_each rounds max_size cs (n + 1) (total -ℤ pos c.size)
        (record s { catalog = tables; blobs = update c.output_id none s.blobs })

  pub data Turn (r : Option (List Key) × Cache) : Type 0 where
    enough : leb_ℤ total max_size ≡ true → r ≡ (some [], s) → Turn r
    stopped : r ≡ (none, s) → Turn r
    unlinked : removed ≡ true → r ≡ (none, record s { catalog = tables }) → Turn r
    kept :
        removed ≡ false
        → r ≡ evict_each rounds max_size cs (n + 1) total (record s { catalog = tables })
        → Turn r
    gone : removed ≡ true → r ≡ (prepend c.output_id next.0, next.1) → Turn r

  Round-cases : (rd : Round) → (rd ≡ fine) ⊎ (rd ≡ row_fails) ⊎ (rd ≡ unlink_fails)
  Round-cases fine = inl refl
  Round-cases row_fails = inr (inl refl)
  Round-cases unlink_fails = inr (inr refl)

  pub turn : Turn (evict_each rounds max_size (c ∷ cs) n total s)
  unfolding evict_each
  turn = elim (Bool-cases (leb_ℤ total max_size)) [
    | inl t ↦ enough t (rw (t, evict_each) refl)
    | inr f ↦ elim (Round-cases (rounds n)) [
      | inr (inl e) ↦ stopped (rw (f, e, evict_each) refl)
      | inr (inr e) ↦ elim (Bool-cases removed) [
        | inl t ↦ unlinked t (rw (f, e, t, evict_each) refl)
        | inr k ↦ kept k (rw (f, e, k, evict_each) refl)
      ]
      | inl e ↦ elim (Bool-cases removed) [
        | inl t ↦ gone t (rw (f, e, t, evict_each) (ground arith))
        | inr k ↦ kept k (rw (f, e, k, evict_each) refl)
      ]
    ]
  ]

-- The rows that a round of a candidate removes.
abbrev pub doomed : PruneCandidate → OutputRow → Bool
doomed c o = has_output_id c.output_id o && leb_ℤ o.accessed_at c.accessed_at

module _ (c : PruneCandidate) (s : Catalog) where
  pub outputs-evict_output :
      (evict_output c.output_id c.accessed_at s).1.outputs ≡ delete_where (doomed c) s.outputs
  unfolding evict_output
  outputs-evict_output = refl

  pub removed-evict_output :
      (evict_output c.output_id c.accessed_at s).0 ≡ ltb 0 (length (select (doomed c) s.outputs))
  unfolding evict_output
  removed-evict_output = refl

-- The loop only deletes rows, so that what holds of all rows holds of those that are left.
module _ (P : OutputRow → Type 0) (rounds : ℕ → Round) (max_size : ℤ) where
  pub evict_each-All :
      (cs : List PruneCandidate) (n : ℕ) (total : ℤ) (s : Cache)
      → All P s.catalog.outputs
      → All P (evict_each rounds max_size cs n total s).1.catalog.outputs
  evict_each-All [] n total s a = unfold evict_each in a
  evict_each-All (c ∷ cs) n total s a =
      let less : All P (tables rounds max_size c cs n total s).outputs =
        rw (outputs-evict_output c s.catalog) (All-delete_where P (doomed c) s.catalog.outputs a) in
      elim (turn rounds max_size c cs n total s) [
        | enough t e ↦ rw e a
        | stopped e ↦ rw e a
        | unlinked t e ↦ rw e less
        | kept t e ↦ rw e (evict_each-All cs (n + 1) total _ less)
        | gone t e ↦ rw e (evict_each-All cs (n + 1) (total -ℤ pos c.size) _ less)
      ]

is_chosen-false :
    (c : PruneCandidate) (cs : List PruneCandidate) (o : OutputRow)
    → is_chosen (c ∷ cs) o ≡ false
    → (doomed c o ≡ false) × (is_chosen cs o ≡ false)
unfolding is_chosen
is_chosen-false c cs o f = ground arith

-- A filter that no candidate's round touches sees the same rows.
module _ (p : OutputRow → Bool) (rounds : ℕ → Round) (max_size : ℤ) where
  pub evict_each-select :
      (cs : List PruneCandidate) (n : ℕ) (total : ℤ) (s : Cache)
      → ((o : OutputRow) → p o ≡ true → is_chosen cs o ≡ false)
      → select p (evict_each rounds max_size cs n total s).1.catalog.outputs
        ≡ select p s.catalog.outputs
  evict_each-select [] n total s h = unfold evict_each in refl
  evict_each-select (c ∷ cs) n total s h =
      let same_rows : select p (tables rounds max_size c cs n total s).outputs
          ≡ select p s.catalog.outputs =
        rw (outputs-evict_output c s.catalog) (
          select-delete_where p (doomed c) (λ o t. (is_chosen-false c cs o (h o t)).0)
            s.catalog.outputs) in
      let later : (o : OutputRow) → p o ≡ true → is_chosen cs o ≡ false =
        λ o t. (is_chosen-false c cs o (h o t)).1 in
      elim (turn rounds max_size c cs n total s) [
        | enough t e ↦ rw e refl
        | stopped e ↦ rw e refl
        | unlinked t e ↦ rw e same_rows
        | kept t e ↦ rw e (evict_each-select cs (n + 1) total _ later ∙ same_rows)
        | gone t e ↦ rw e (evict_each-select cs (n + 1) (total -ℤ pos c.size) _ later ∙ same_rows)
      ]

-- Eviction keeps every row that was not chosen: an output that no candidate names, or that was
-- accessed after it was chosen, is in the catalog afterwards with its row unchanged, whatever fails
-- on the way and however stale the candidates are.
pub evict_to_max_size-select :
    (rounds : ℕ → Round) (sized : Bool) (max_size : ℤ) (cs : List PruneCandidate) (s : Cache)
    → select
        (λ o. not (is_chosen cs o))
        (evict_to_max_size rounds sized max_size cs s).1.catalog.outputs
      ≡ select (λ o. not (is_chosen cs o)) s.catalog.outputs
unfolding evict_to_max_size
evict_to_max_size-select rounds sized max_size [] s = refl
evict_to_max_size-select rounds sized max_size (c ∷ cs) s = elim (Bool-cases sized) [
  | inl t ↦ rw t (
      evict_each-select (λ o. not (is_chosen (c ∷ cs) o)) rounds max_size (c ∷ cs) 0
        (pos (compressed_size s.catalog)) s (λ o t. ground arith))
  | inr f ↦ rw f refl
]
