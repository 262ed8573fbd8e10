-- ===== src/BlobType/Tally.antt =====
-- `classifyBlobTypes` and `addBlobType`: the breakdown by kind. What the workers report of a blob is
-- the argument `classify`, and the order in which their results arrive is the argument `arrival`.
use mathlib.Core.Logic.{∥∥₁_elim}
use mathlib.Core.List.{Perm, Permᴰ}
use native.Mathlib.Nat.{ℕ_set}
use gocachez.Prelude.{
  ℕ, ◌+◌, ◌≡◌, refl, ap, ◌∙◌, Bool, true, false, Option, none, some, List, [], ◌∷◌, select, arith,
  ◌==◌, if◌then◌else◌,
}
use gocachez.Catalog.{Key}
use gocachez.Catalog.Listing.{CatalogOutput, sum_of}

-- `blobTypeStatus`, with the kind as the number that the catalog stores.
pub record BlobTypeStatus : Type 0 where
  pub kind : ℕ
  pub count : ℕ
  pub size : ℕ
  pub compressed_size : ℕ

-- `addBlobType` on the map `byKind`.
unfoldable pub bump : CatalogOutput → BlobTypeStatus → BlobTypeStatus
bump o s = record s {
  count = s.count + 1;
  size = s.size + o.size;
  compressed_size = s.compressed_size + o.compressed_size;
}

unfoldable pub add_blob_type : ℕ → CatalogOutput → List BlobTypeStatus → List BlobTypeStatus
unfolding bump
add_blob_type k o [] = bump o (record { kind = k; count = 0; size = 0; compressed_size = 0 }) ∷ []
add_blob_type k o (s ∷ ss) = if s.kind == k then bump o s ∷ ss else s ∷ add_blob_type k o ss

-- The first loop: outputs with a cached classification are added at once, the others are pending.
unfoldable pub add_cached : List CatalogOutput → List BlobTypeStatus → List BlobTypeStatus
add_cached [] m = m
add_cached (o ∷ os) m = add_cached os (elim o.blob_type [ none ↦ m | some k ↦ add_blob_type k o m ])

abbrev pub is_pending : CatalogOutput → Bool
is_pending o = elim o.blob_type [ none ↦ true | some _ ↦ false ]

-- The loop over the results.
unfoldable pub add_results :
    (Key → ℕ) → List CatalogOutput → List BlobTypeStatus → List BlobTypeStatus
add_results classify [] m = m
add_results classify (o ∷ os) m = add_results classify os (add_blob_type (classify o.output_id) o m)

unfoldable pub classify_blob_types :
    (Key → ℕ) → List CatalogOutput → List CatalogOutput → List BlobTypeStatus
classify_blob_types classify outputs arrival = add_results classify arrival (add_cached outputs [])

-- The entry of a kind, zero where the map has none.
unfoldable pub status_of : ℕ → List BlobTypeStatus → BlobTypeStatus
status_of j [] = record { kind = j; count = 0; size = 0; compressed_size = 0 }
status_of j (s ∷ ss) = if s.kind == j then s else status_of j ss

status_of-add_blob_type :
    (j k : ℕ) (o : CatalogOutput) (m : List BlobTypeStatus)
    → status_of j (add_blob_type k o m) ≡ (if k == j then bump o (status_of j m) else status_of j m)
unfolding status_of add_blob_type
status_of-add_blob_type j k o [] = ground arith
status_of-add_blob_type j k o (s ∷ ss) = ground (arith, status_of-add_blob_type j k o ss)

-- The three totals of a kind, one at a time.
pub data Column : Type 0 where
  count size compressed_size : Column

abbrev pub column : Column → BlobTypeStatus → ℕ
column count s = s.count
column size s = s.size
column compressed_size s = s.compressed_size

abbrev pub share : Column → CatalogOutput → ℕ
share count o = 1
share size o = o.size
share compressed_size o = o.compressed_size

-- The kind that an output counts under: the cached one, or what classifying it yields.
abbrev pub kind_of : (Key → ℕ) → CatalogOutput → ℕ
kind_of classify o = elim o.blob_type [ none ↦ classify o.output_id | some k ↦ k ]

abbrev pub share_in : (Key → ℕ) → Column → ℕ → CatalogOutput → ℕ
share_in classify col j o = if kind_of classify o == j then share col o else 0

column-add :
    (col : Column) (j k : ℕ) (o : CatalogOutput) (m : List BlobTypeStatus)
    → column col (status_of j (add_blob_type k o m))
      ≡ column col (status_of j m) + (if k == j then share col o else 0)
unfolding bump
column-add count j k o m = ground (arith, status_of-add_blob_type j k o m)
column-add size j k o m = ground (arith, status_of-add_blob_type j k o m)
column-add compressed_size j k o m = ground (arith, status_of-add_blob_type j k o m)

module _ (classify : Key → ℕ) (col : Column) (j : ℕ) where
  abbrev pending_share : CatalogOutput → ℕ
  pending_share o = if classify o.output_id == j then share col o else 0

  column-add_results :
      (os : List CatalogOutput) (m : List BlobTypeStatus)
      → column col (status_of j (add_results classify os m))
        ≡ column col (status_of j m) + sum_of pending_share os
  unfolding add_results sum_of
  column-add_results [] m = omega arith
  column-add_results (o ∷ os) m = omega (
    arith,
    column-add_results os (add_blob_type (classify o.output_id) o m),
    column-add col j (classify o.output_id) o m,
  )

  column-add_cached :
      (os : List CatalogOutput) (m : List BlobTypeStatus)
      → column col (status_of j (add_cached os m)) + sum_of pending_share (select is_pending os)
        ≡ column col (status_of j m) + sum_of (share_in classify col j) os
  unfolding add_cached sum_of select
  column-add_cached [] m = omega arith
  column-add_cached (o ∷ os) m = by_cache o.blob_type (column-add_cached os)
    where
      by_cache :
          (cached : Option ℕ)
          → ((m' : List BlobTypeStatus)
              → column col (status_of j (add_cached os m'))
                  + sum_of pending_share (select is_pending os)
                ≡ column col (status_of j m') + sum_of (share_in classify col j) os)
          → column col (
                status_of j
                  (add_cached os (elim cached [ none ↦ m | some k ↦ add_blob_type k o m ])))
              + sum_of pending_share (
                  if elim cached [ none ↦ true | some _ ↦ false ]
                  then o ∷ select is_pending os
                  else select is_pending os)
            ≡ column col (status_of j m)
              + ((if elim cached [ none ↦ classify o.output_id | some k ↦ k ] == j
                    then share col o
                    else 0)
                  + sum_of (share_in classify col j) os)
      by_cache none ih = omega (arith, ih m)
      by_cache (some k) ih = omega (arith, ih (add_blob_type k o m), column-add col j k o m)

sum_of-Permᴰ : {A : Type 0} (f : A → ℕ) {xs ys : List A} → Permᴰ xs ys → sum_of f xs ≡ sum_of f ys
unfolding sum_of
sum_of-Permᴰ f Permᴰ.nil = refl
sum_of-Permᴰ f (Permᴰ.cons e p) = omega (arith, ap f e, sum_of-Permᴰ f p)
sum_of-Permᴰ f (Permᴰ.swap e g) = omega (arith, ap f e, ap f g)
sum_of-Permᴰ f (Permᴰ.trans p q) = sum_of-Permᴰ f p ∙ sum_of-Permᴰ f q

sum_of-perm : {A : Type 0} (f : A → ℕ) {xs ys : List A} → Perm xs ys → sum_of f xs ≡ sum_of f ys
sum_of-perm f p = ∥∥₁_elim p (ℕ_set _ _) (sum_of-Permᴰ f)

-- The breakdown accounts for every output once: whatever the order in which the workers' results
-- arrive, the files, the sizes and the compressed sizes reported of a kind are the sums over the
-- outputs whose cached kind it is, or that have none and are classified as it.
pub classify_blob_types-sum :
    (classify : Key → ℕ) (outputs arrival : List CatalogOutput) (col : Column) (j : ℕ)
    → Perm arrival (select is_pending outputs)
    → column col (status_of j (classify_blob_types classify outputs arrival))
      ≡ sum_of (share_in classify col j) outputs
unfolding classify_blob_types status_of
classify_blob_types-sum classify outputs arrival col j p =
    let none_yet : column col (status_of j []) ≡ 0 = no_column col in
    omega (
      arith,
      column-add_results classify col j arrival (add_cached outputs []),
      column-add_cached classify col j outputs [],
      sum_of-perm (pending_share classify col j) p,
      none_yet,
    )
  where
    no_column : (col : Column) → column col (status_of j []) ≡ 0
    no_column count = refl
    no_column size = refl
    no_column compressed_size = refl
