-- ===== src/Files.antt =====
-- The names of files: the hex of IDs (util.go, catalog.go), the output that a live file is for
-- (store.go), shards and paths (cache.go, store.go).
use gocachez.Prelude.{
  ℕ, ◌+◌, ◌-◌, ◌*◌, ◌/◌, ◌%◌, Bool, true, false, not, ◌&&◌, ◌||◌, Option, none, some, List, [], ◌∷◌,
  ◌++◌, map, Bytes, codes, take, select, length, same, ltb, ◌==◌, if◌then◌else◌,
}
use gocachez.Prelude.Int.{ℤ, leb_ℤ}
use gocachez.Bytes.{digit, trim_suffix, cut}
use gocachez.Catalog.{Catalog}
use gocachez.Expiry.{bytes_before}

-- `hex.EncodeToString` and `hex.DecodeString`
unfoldable pub hex_digit : ℕ → ℕ
hex_digit n = if ltb n 10 then b'0' + n else b'a' + (n - 10)

unfoldable pub encode : Bytes → Bytes
unfolding hex_digit
encode [] = []
encode (b ∷ bs) = hex_digit (b / 16) ∷ hex_digit (b % 16) ∷ encode bs

unfoldable pub decode : Bytes → Option Bytes
decode [] = some []
decode (x ∷ []) = none
decode (x ∷ y ∷ rest) = elim (digit x) [
  | none ↦ none
  | some h ↦ elim (digit y) [
    | none ↦ none
    | some l ↦ elim (decode rest) [ none ↦ none | some bs ↦ some ((h * 16 + l) ∷ bs) ]
  ]
]

-- `idHex`; `idKey` is `decode`, and panics where that is none.
unfoldable pub id_hex : Bytes → Option Bytes
id_hex [] = none
id_hex (b ∷ bs) = some (encode (b ∷ bs))

-- `liveOutputID` of a file's base name.
unfoldable pub live_output_id : Bytes → Bytes
live_output_id base = elim (cut base b'-') [
  | none ↦ []
  | some (id, _) ↦ elim (decode id) [
    | none ↦ []
    | some key ↦ if same (encode key) id then id else []
  ]
]

-- `outputShard` and `shardPrefix`
unfoldable pub output_shard : Bytes → Bytes
output_shard id = if ltb (length id) 2 then codes "xx" else take 2 id

unfoldable pub shard_prefix : ℕ → Bytes
unfolding encode
shard_prefix shard = encode (shard ∷ [])

abbrev pub last_output_shard : ℕ
last_output_shard = 255

-- `referencedOutputIDs`, as the hex of the IDs.
unfoldable pub referenced_output_ids : ℕ → ℤ → Catalog → List Bytes
referenced_output_ids shard min_accessed_at c =
    map (λ o. encode o.output_id)
      (select
        (λ o.
          not (bytes_before o.output_id (shard ∷ []))
          && (shard == last_output_shard || bytes_before o.output_id ((shard + 1) ∷ []))
          && leb_ℤ min_accessed_at o.accessed_at)
        c.outputs)

-- A file of the trees of blobs and of retained files, in a directory of its tree.
pub data Tree : Type 0 where
  blobs : Tree
  retained : Tree

pub record FilePath : Type 0 where
  pub tree : Tree
  pub dir : Bytes
  pub base : Bytes

abbrev pub tree_eq : Tree → Tree → Bool
tree_eq blobs blobs = true
tree_eq blobs retained = false
tree_eq retained blobs = false
tree_eq retained retained = true

abbrev pub path_eq : FilePath → FilePath → Bool
path_eq p q = tree_eq p.tree q.tree && same p.dir q.dir && same p.base q.base

-- `blobPath` and `retainedPath`
abbrev pub blob_path : Bytes → FilePath
blob_path id = record { tree = blobs; dir = output_shard id; base = id ++ codes ".zst" }

abbrev pub retained_path : Bytes → Bytes → FilePath
retained_path id ext = record { tree = retained; dir = output_shard id; base = id ++ ext }

-- `filepath.Ext` of a base name
unfoldable pub ext_of : Bytes → Bytes
ext_of [] = []
ext_of (b ∷ bs) = elim (ext_of bs) [ [] ↦ if b == b'.' then b ∷ bs else [] | c ∷ cs ↦ c ∷ cs ]

-- The name of the output that a file's base name has.
unfoldable pub output_of : Bytes → Bytes
output_of base = trim_suffix base (ext_of base)
