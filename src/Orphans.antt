-- ===== src/Orphans.antt =====
-- Orphan collection: the files of outputs that the catalog does not know (cache.go and catalog.go).
pub mod Hex
pub mod Shards
pub mod Spare
pub mod Sweep
pub mod Pending
use gocachez.Prelude.{
  ℕ, zero, suc, ◌+◌, ◌-◌, ◌*◌, ◌/◌, ◌%◌, Bool, true, false, not, ◌&&◌, ◌||◌, Option, none, some,
  List, [], ◌∷◌, ◌++◌, map, Bytes, codes, take, drop, select, length, same, ltb, ◌==◌,
  if◌then◌else◌,
}
use gocachez.Prelude.Int.{ℤ, ltb_ℤ, leb_ℤ, ◌-ℤ◌, pos, min_int64}
use gocachez.Bytes.{digit, has_prefix, has_suffix, trim_suffix, cut}
use gocachez.Catalog.{Key, Catalog}
use gocachez.Expiry.{bytes_before}
use gocachez.Maintenance.Due.{mtime_interval}
use gocachez.Files.{
  FilePath, Tree, blob_path, blobs, decode, encode, ext_of, hex_digit, id_hex, last_output_shard,
  live_output_id, output_of, output_shard, path_eq, referenced_output_ids, retained, retained_path,
  shard_prefix, tree_eq,
}

-- A match of `pendingBlobPattern`.
unfoldable pub is_pending_blob : Bytes → Bool
is_pending_blob [] = false
is_pending_blob (b ∷ bs) =
    (has_prefix (b ∷ bs) (codes "-pending-") && has_suffix (drop 9 (b ∷ bs)) (codes ".zst"))
    || is_pending_blob bs

unfoldable pub has_name : List Bytes → Bytes → Bool
has_name [] name = false
has_name (n ∷ ns) name = same n name || has_name ns name

-- `orphanFilesInDir`; the scan is what the walk reports, none an error.
unfoldable pub orphan_files_in_dir :
    Option (List FilePath) → List Bytes → List Bytes → Option (List FilePath)
orphan_files_in_dir none referenced extensions = none
orphan_files_in_dir (some paths) referenced extensions = some (
    select
      (λ p.
        has_name extensions (ext_of p.base)
        && not (is_pending_blob p.base)
        && not (has_name referenced (output_of p.base)))
      paths)

-- The access time that keeps every output.
abbrev pub keep_every_output : ℤ
keep_every_output = min_int64

-- What the walks report, and the catalog at each query: none where it fails.
abbrev pub Scan : Type 0
Scan = Tree → Bytes → Option (List FilePath)

unfoldable pub orphans_in_shard : Scan → Bool → ℕ → List Bytes → Option (List FilePath)
orphans_in_shard scan include_blobs shard referenced =
    elim (if include_blobs
      then orphan_files_in_dir (scan blobs (shard_prefix shard)) referenced (codes ".zst" ∷ [])
      else some []) [
        | none ↦ none
        | some found ↦
            elim (orphan_files_in_dir (scan retained (shard_prefix shard)) referenced
              (codes ".a" ∷ codes ".go" ∷ [])) [ none ↦ none | some paths ↦ some (found ++ paths) ]
      ]

-- `planOrphans`: the orphans by shard, with `left` shards to go.
unfoldable pub plan_shards :
    (ℕ → Option Catalog) → Scan → Bool → ℤ → ℕ → ℕ → Option (List (ℕ × List FilePath))
plan_shards catalogs scan include_blobs entry_cutoff zero shard = some []
plan_shards catalogs scan include_blobs entry_cutoff (suc left) shard = elim (catalogs shard) [
  | none ↦ none
  | some c ↦
      elim (orphans_in_shard scan include_blobs shard
        (referenced_output_ids shard entry_cutoff c)) [
          | none ↦ none
          | some found ↦
              elim (plan_shards catalogs scan include_blobs entry_cutoff left (shard + 1)) [
                | none ↦ none
                | some rest ↦ some (if length found == 0 then rest else (shard, found) ∷ rest)
              ]
        ]
]

unfoldable pub plan_orphans :
    (ℕ → Option Catalog) → Scan → Bool → ℤ → Option (List (ℕ × List FilePath))
plan_orphans catalogs scan include_blobs entry_cutoff =
    plan_shards catalogs scan include_blobs entry_cutoff 256 0

-- The modification times of the files that there are.
abbrev pub Disk : Type 0
Disk = FilePath → Option ℤ

unfoldable pub unlink : FilePath → Disk → Disk
unlink p disk q = if path_eq p q then none else disk q

-- Whether a file can be examined and removed.
pub record Unlinking : Type 0 where
  pub stats : FilePath → Bool
  pub removes : FilePath → Bool

-- Whether a file is there to be seen and not older than a time.
unfoldable pub is_recent : Unlinking → ℤ → Disk → FilePath → Bool
is_recent u modified_before disk p =
    u.stats p && elim (disk p) [ none ↦ false | some at ↦ not (ltb_ℤ at modified_before) ]

-- `removeShardOrphans`: whether it went through, and the files.
unfoldable pub remove_shard_orphans :
    Unlinking → ℤ → List Bytes → List FilePath → Disk → Bool × Disk
remove_shard_orphans u modified_before referenced [] disk = (true, disk)
remove_shard_orphans u modified_before referenced (p ∷ ps) disk =
    elim (has_name referenced (output_of p.base) || is_recent u modified_before disk p) [
      | true ↦ remove_shard_orphans u modified_before referenced ps disk
      | false ↦ elim (u.removes p) [
        | true ↦ remove_shard_orphans u modified_before referenced ps (unlink p disk)
        | false ↦ (false, disk)
      ]
    ]

-- `removeOrphans`, with what others do to the files before each shard, and whether its lock is taken.
unfoldable pub remove_orphans :
    (ℕ → Option Catalog)
    → (ℕ → Disk → Disk)
    → (ℕ → Bool)
    → Unlinking
    → ℤ
    → List (ℕ × List FilePath)
    → Disk
    → Bool × Disk
remove_orphans catalogs others locks u modified_before [] disk = (true, disk)
remove_orphans catalogs others locks u modified_before ((shard, paths) ∷ rest) disk =
    let disk1 = others shard disk in
    elim (catalogs shard) [
      | none ↦ (false, disk1)
      | some c ↦ elim (locks shard) [
        | false ↦ (false, disk1)
        | true ↦
            let (ok, disk2) =
              remove_shard_orphans u modified_before
                (referenced_output_ids shard keep_every_output c) paths disk1 in
            elim ok [
              | false ↦ (false, disk2)
              | true ↦ remove_orphans catalogs others locks u modified_before rest disk2
            ]
      ]
    ]

-- `removeStalePendingBlobs`: errors are collected, and the next file is tried.
unfoldable pub remove_stale_pending_blobs : Unlinking → ℤ → List FilePath → Disk → Bool × Disk
remove_stale_pending_blobs u now [] disk = (true, disk)
remove_stale_pending_blobs u now (p ∷ ps) disk = elim (is_pending_blob p.base) [
  | false ↦ remove_stale_pending_blobs u now ps disk
  | true ↦ elim (disk p) [
    | none ↦ remove_stale_pending_blobs u now ps disk
    | some at ↦
        if not (u.stats p)
        then (false, (remove_stale_pending_blobs u now ps disk).1)
        else if not (ltb_ℤ at (now -ℤ pos mtime_interval))
        then remove_stale_pending_blobs u now ps disk
        else if u.removes p
        then remove_stale_pending_blobs u now ps (unlink p disk)
        else (false, (remove_stale_pending_blobs u now ps disk).1)
  ]
]

abbrev pub orphan_grace : ℕ
orphan_grace = 60000000000

-- The orphans in `sweepUnlocked`: the plan and the removal read the catalog at different times.
unfoldable pub sweep_orphans :
    (ℕ → Option Catalog)
    → (ℕ → Option Catalog)
    → Scan
    → (ℕ → Disk → Disk)
    → (ℕ → Bool)
    → Unlinking
    → ℤ
    → Disk
    → Bool × Disk
sweep_orphans planned removed scan others locks u now disk =
    elim (plan_orphans planned scan true keep_every_output) [
      | none ↦ (false, disk)
      | some orphans ↦ remove_orphans removed others locks u (now -ℤ pos orphan_grace) orphans disk
    ]
