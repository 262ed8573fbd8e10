-- ===== src/Catalog/Listing.antt =====
-- `listOutputs`, `outputStats` and `compressedSize` of catalog.go: what status reads.
use gocachez.Prelude.{ℕ, ◌+◌, Option, none, some, List, [], ◌∷◌, map, length, ◌==◌, if◌then◌else◌}
use gocachez.Catalog.{Key, Catalog}

-- The Go struct `catalogOutput`; an invalid `sql.NullInt64` is `none`.
pub record CatalogOutput : Type 0 where
  pub output_id : Key
  pub size : ℕ
  pub compressed_size : ℕ
  pub blob_type : Option ℕ
  pub retained_type : Option ℕ

abbrev pub blob_classifier_version : ℕ
blob_classifier_version = 1

abbrev pub retained_classifier_version : ℕ
retained_classifier_version = 1

-- `CASE WHEN version = ? THEN kind END`
unfoldable pub current : ℕ → Option ℕ → Option ℕ → Option ℕ
current version none kind = none
current version (some v) kind = if v == version then kind else none

unfoldable pub list_outputs : Catalog → List CatalogOutput
unfolding current
list_outputs c =
    map
      (λ o. record {
        output_id = o.output_id;
        size = o.size;
        compressed_size = o.compressed_size;
        blob_type = current blob_classifier_version o.blob_type_version o.blob_type;
        retained_type = current retained_classifier_version o.retained_type_version o.retained_type;
      })
      c.outputs

unfoldable pub sum_of {ℓ} : {A : Type ℓ} → (A → ℕ) → List A → ℕ
sum_of f [] = 0
sum_of f (x ∷ xs) = f x + sum_of f xs

unfoldable pub compressed_size : Catalog → ℕ
compressed_size c = sum_of (λ o. o.compressed_size) c.outputs

unfoldable pub output_stats : Catalog → ℕ × ℕ × ℕ
output_stats c =
    (length c.outputs, sum_of (λ o. o.size) c.outputs, sum_of (λ o. o.compressed_size) c.outputs)
