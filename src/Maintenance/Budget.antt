-- ===== src/Maintenance/Budget.antt =====
-- The budget that eviction reaches.
use gocachez.Prelude.{
  ℕ, ◌+◌, ◌≡◌, refl, sym, ap, ◌∙◌, ◌⊎◌, Bool, true, false, Option, none, some, List, [], ◌∷◌,
  select, arith, Bool-cases, inl, inr, All, All-imp, length, ltb,
}
use gocachez.Prelude.Int.{ℤ, pos, leb_ℤ, ◌-ℤ◌}
use gocachez.Catalog.{Key, OutputRow, Catalog, delete_where, has_output_id, evict_output}
use gocachez.Catalog.Listing.{compressed_size, sum_of}
use gocachez.Catalog.Tables.{Apart, All-delete_where}
use gocachez.Catalog.WellFormed.{Unlike}
use gocachez.Store.State.{update}
use gocachez.Maintenance.Evict.{
  PruneCandidate, Cache, Round, evict_each, evict_to_max_size, is_chosen,
}
use gocachez.Maintenance.Rounds.{
  tables, prepend, enough, stopped, unlinked, kept, gone, turn, doomed, outputs-evict_output,
  removed-evict_output, evict_each-All,
}
use gocachez.Maintenance.Unlink.{select-nil, alone, removed_rows, tables-Apart}

-- The size of a candidate is the compressed size of the row that it was chosen from, unless the row
-- has been accessed since.
abbrev pub Priced : List PruneCandidate → List OutputRow → Type 0
Priced [] xs = Unit
Priced (c ∷ cs) xs = All (λ o. doomed c o ≡ true → o.compressed_size ≡ c.size) xs × Priced cs xs

Priced-delete_where :
    (cs : List PruneCandidate) (d : OutputRow → Bool) (xs : List OutputRow)
    → Priced cs xs
    → Priced cs (delete_where d xs)
Priced-delete_where [] d xs a = tt
Priced-delete_where (c ∷ cs) d xs a = (
  All-delete_where (λ o. doomed c o ≡ true → o.compressed_size ≡ c.size) d xs a.0,
  Priced-delete_where cs d xs a.1,
)

-- What a round takes off the total is what the table lost.
sum_of-removed :
    (c : PruneCandidate) (xs : List OutputRow)
    → Apart Unlike xs
    → All (λ o. doomed c o ≡ true → o.compressed_size ≡ c.size) xs
    → ltb 0 (length (select (doomed c) xs)) ≡ true
    → sum_of (λ o. o.compressed_size) xs
      ≡ c.size + sum_of (λ o. o.compressed_size) (delete_where (doomed c) xs)
unfolding delete_where select sum_of
sum_of-removed c [] a p h = absurd (ground arith)
sum_of-removed c (x ∷ xs) a p h = elim (Bool-cases (doomed c x)) [
  | inl t ↦
      let rest = alone c x xs (ground (arith, t)) a.0 in
      ground (arith, t, (select-nil c xs rest).1, p.0 t)
  | inr f ↦ let ih = sum_of-removed c xs a.1 p.1 (ground (arith, f)) in ground (arith, f, ih)
]

delete_where-kept :
    (c : PruneCandidate) (xs : List OutputRow)
    → ltb 0 (length (select (doomed c) xs)) ≡ false
    → (delete_where (doomed c) xs ≡ xs) × All (λ o. doomed c o ≡ false) xs
unfolding delete_where select
delete_where-kept c [] h = (refl, tt)
delete_where-kept c (x ∷ xs) h = elim (Bool-cases (doomed c x)) [
  | inl t ↦ absurd (ground (arith, t))
  | inr f ↦
      let ih = delete_where-kept c xs (ground (arith, f)) in (ground (arith, f, ih.0), (f, ih.1))
]

-- The catalog is within the budget, or nothing that was chosen is left.
abbrev pub Settled : ℤ → List PruneCandidate → Catalog → Type 0
Settled max_size cs c =
    (leb_ℤ (pos (compressed_size c)) max_size ≡ true) ⊎ All (λ o. is_chosen cs o ≡ false) c.outputs

All-chosen :
    (c : PruneCandidate) (cs : List PruneCandidate) (xs : List OutputRow)
    → All (λ o. doomed c o ≡ false) xs
    → All (λ o. is_chosen cs o ≡ false) xs
    → All (λ o. is_chosen (c ∷ cs) o ≡ false) xs
unfolding is_chosen
All-chosen c cs [] a b = tt
All-chosen c cs (x ∷ xs) a b = (ground (arith, a.0, b.0), All-chosen c cs xs a.1 b.1)

nothing_chosen : (xs : List OutputRow) → All (λ o. is_chosen [] o ≡ false) xs
unfolding is_chosen
nothing_chosen [] = tt
nothing_chosen (x ∷ xs) = (refl, nothing_chosen xs)

doomed-removed :
    (c : PruneCandidate) (xs : List OutputRow)
    → Apart Unlike xs
    → ltb 0 (length (select (doomed c) xs)) ≡ true
    → All (λ o. doomed c o ≡ false) (delete_where (doomed c) xs)
doomed-removed c xs a h =
    All-imp (λ o. has_output_id c.output_id o ≡ false) (λ o. doomed c o ≡ false)
      (delete_where (doomed c) xs) (λ o f. ground (arith, f)) (removed_rows c xs a h)

prepend-some :
    (k : Key) (r : Option (List Key)) (keys : List Key)
    → prepend k r ≡ some keys
    → (ks : List Key) × (r ≡ some ks)
prepend-some k none keys h = absurd (ground arith)
prepend-some k (some ks) keys h = (ks, refl)

module _ (c : PruneCandidate) (s : Catalog) where
  compressed_size-kept :
      (evict_output c.output_id c.accessed_at s).0 ≡ false
      → compressed_size (evict_output c.output_id c.accessed_at s).1 ≡ compressed_size s
  unfolding compressed_size evict_output
  compressed_size-kept f = ap (sum_of (λ o. o.compressed_size)) (delete_where-kept c s.outputs f).0

  compressed_size-gone :
      Apart Unlike s.outputs
      → All (λ o. doomed c o ≡ true → o.compressed_size ≡ c.size) s.outputs
      → (evict_output c.output_id c.accessed_at s).0 ≡ true
      → compressed_size s ≡ c.size + compressed_size (evict_output c.output_id c.accessed_at s).1
  unfolding compressed_size evict_output
  compressed_size-gone a p t = sum_of-removed c s.outputs a p t

less_total : (a b n : ℕ) → a ≡ n + b → pos a -ℤ pos n ≡ pos b
unfolding ◌-ℤ◌
less_total a b n h = ground arith

spared :
    (c : PruneCandidate) (xs : List OutputRow)
    → ltb 0 (length (select (doomed c) xs)) ≡ false
    → All (λ o. doomed c o ≡ false) (delete_where (doomed c) xs)
spared c xs h =
    All-delete_where (λ o. doomed c o ≡ false) (doomed c) xs (delete_where-kept c xs h).1

module _ (rounds : ℕ → Round) (max_size : ℤ) where
  Settled-chosen :
      (c : PruneCandidate) (cs : List PruneCandidate) (n : ℕ) (total : ℤ) (s : Cache)
      → All (λ o. doomed c o ≡ false) s.catalog.outputs
      → Settled max_size cs (evict_each rounds max_size cs n total s).1.catalog
      → Settled max_size (c ∷ cs) (evict_each rounds max_size cs n total s).1.catalog
  Settled-chosen c cs n total s left (inl b) = inl b
  Settled-chosen c cs n total s left (inr r) = inr (
      All-chosen c cs _ (evict_each-All (λ o. doomed c o ≡ false) rounds max_size cs n total s left)
        r)

  evict_each-Settled :
      (cs : List PruneCandidate) (n : ℕ) (total : ℤ) (s : Cache) (keys : List Key)
      → Apart Unlike s.catalog.outputs
      → Priced cs s.catalog.outputs
      → total ≡ pos (compressed_size s.catalog)
      → (evict_each rounds max_size cs n total s).0 ≡ some keys
      → Settled max_size cs (evict_each rounds max_size cs n total s).1.catalog
  evict_each-Settled [] n total s keys a p size h =
      unfold evict_each in inr (nothing_chosen s.catalog.outputs)
  evict_each-Settled (c ∷ cs) n total s keys a p size h =
      let xs = s.catalog.outputs in
      let less = tables-Apart rounds max_size c cs n total s a in
      let priced = Priced-delete_where cs (doomed c) xs p.1 in
      elim (turn rounds max_size c cs n total s) [
        | enough t e ↦ rw e (inl (rw size at t))
        | stopped e ↦ absurd (ground (arith, ap (λ r. r.0) e))
        | unlinked t e ↦ absurd (ground (arith, ap (λ r. r.0) e))
        | kept t e ↦
            let st : Cache = record s { catalog = tables rounds max_size c cs n total s } in
            rw e (
              Settled-chosen c cs (n + 1) total st
                (rw (outputs-evict_output c s.catalog)
                  (spared c xs (sym (removed-evict_output c s.catalog) ∙ t)))
                (evict_each-Settled cs (n + 1) total st keys less
                  (rw (outputs-evict_output c s.catalog) priced)
                  (size ∙ ap pos (sym (compressed_size-kept c s.catalog t)))
                  (ap (λ r. r.0) (sym e) ∙ h)))
        | gone t e ↦
            let st : Cache = record s {
              catalog = tables rounds max_size c cs n total s;
              blobs = update c.output_id none s.blobs;
            } in
            let (ks, some_keys) = prepend-some c.output_id _ keys (ap (λ r. r.0) (sym e) ∙ h) in
            let rest = total -ℤ pos c.size in
            rw e (
              Settled-chosen c cs (n + 1) rest st
                (rw (outputs-evict_output c s.catalog)
                  (doomed-removed c xs a (sym (removed-evict_output c s.catalog) ∙ t)))
                (evict_each-Settled cs (n + 1) rest st ks less
                  (rw (outputs-evict_output c s.catalog) priced)
                  (ap (λ x. x -ℤ pos c.size) size
                    ∙ less_total _ _ c.size (compressed_size-gone c s.catalog a p.0 t))
                  some_keys))
      ]

-- Eviction that returns without an error has done its work: where output IDs are unique and the
-- candidates carry the sizes of the rows that they were chosen from, the compressed blobs that the
-- catalog accounts for fit the budget afterwards, or no row that was chosen is left.
pub evict_to_max_size-Settled :
    (rounds : ℕ → Round) (sized : Bool) (max_size : ℤ) (cs : List PruneCandidate) (s : Cache)
    (keys : List Key)
    → Apart Unlike s.catalog.outputs
    → Priced cs s.catalog.outputs
    → (evict_to_max_size rounds sized max_size cs s).0 ≡ some keys
    → Settled max_size cs (evict_to_max_size rounds sized max_size cs s).1.catalog
unfolding evict_to_max_size
evict_to_max_size-Settled rounds sized max_size [] s keys a p h =
    inr (nothing_chosen s.catalog.outputs)
evict_to_max_size-Settled rounds sized max_size (c ∷ cs) s keys a p h = elim (Bool-cases sized) [
  | inl t ↦ rw t (
      evict_each-Settled rounds max_size (c ∷ cs) 0 (pos (compressed_size s.catalog)) s keys a p
        refl (rw t at h))
  | inr f ↦ absurd (ground (arith, f))
]
