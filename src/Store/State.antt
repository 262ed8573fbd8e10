-- ===== src/Store/State.antt =====
-- The state of `store` (store.go), the files that it works on, and the protocol's messages
-- (protocol.go).
use gocachez.Prelude.{
  ◌≡◌, ℕ, ◌+◌, Bool, true, false, Option, none, some, List, [], Bytes, same, ◌==◌, if◌then◌else◌,
}
use gocachez.Prelude.Int.{ℤ}
use gocachez.Catalog.{Key, Catalog}
use gocachez.Catalog.Put.{DbError}

-- The commands of the protocol; `unknown` is any other string.
pub data Command : Type 0 where
  put get close unknown : Command

-- `request`
pub record Request : Type 0 where
  pub id : ℤ
  pub command : Command
  pub action_id : Key
  pub output_id : Key
  pub body_size : ℤ

pub data Error : Type 0 where
  missing_action_id missing_output_id body_refused body_broken io_failure size_mismatch : Error
  unknown_command : Error
  catalog_failure : DbError → Error

-- The name of a file in the run directory. `os.CreateTemp` never returns a name in use.
abbrev pub LivePath : Type 0
LivePath = ℕ

-- `response`, without the list of commands, which only the handshake fills.
pub record Response : Type 0 where
  pub id : ℤ
  pub err : Option Error
  pub miss : Bool
  pub output_id : Option Key
  pub size : ℕ
  pub time : Option ℤ
  pub disk_path : Option LivePath

-- What `put` and `get` return: a response, or an error.
pub data Result : Type 0 where
  ok : Response → Result
  fail : Error → Result

-- `response{ID: id}`
abbrev pub response : ℤ → Response
response id = record {
  id = id;
  err = none;
  miss = false;
  output_id = none;
  size = 0;
  time = none;
  disk_path = none;
}

-- A map with digests for keys.
abbrev pub Map {ℓ} : Type ℓ → Type ℓ
Map V = Key → Option V

unfoldable pub update {ℓ} : {V : Type ℓ} → Key → Option V → Map V → Map V
update k v m j = if same k j then v else m j

unfoldable pub update_live :
    LivePath → Option Bytes → (LivePath → Option Bytes) → LivePath → Option Bytes
update_live p v m q = if p == q then v else m q

-- What `put` and `get` read and write of `store`: the catalog, the compressed blobs by output, the
-- files of the run directory (`next_path` is the first name not yet used there), and the maps that
-- `mu` guards. `accessed` and `accessed_outputs` list the latest access first.
pub record Store : Type 0 where
  pub catalog : Catalog
  pub blobs : Map Bytes
  pub live : LivePath → Option Bytes
  pub next_path : LivePath
  pub materialized : Map LivePath
  pub accessed : List (Key × ℤ)
  pub accessed_outputs : List (Key × ℤ)
  pub access_flushed : ℤ
  pub installed : ℕ

-- The compression library: decompressing what was compressed gives it back, as zstd documents.
pub record Codec : Type 0 where
  pub compress : Bytes → Bytes
  pub decompress : Bytes → Option Bytes
  pub decompress-compress : (content : Bytes) → decompress (compress content) ≡ some content

-- `regularFile` on a live path.
unfoldable pub is_live : Store → LivePath → Bool
is_live st p = elim (st.live p) [ none ↦ false | some _ ↦ true ]

-- `createLiveFile`: a new empty file, or an error and no file.
unfoldable pub create_live_file : Bool → Store → Option LivePath × Store
create_live_file failed st = if failed then (none, st) else (
  some st.next_path,
  record st { live = update_live st.next_path (some []) st.live; next_path = st.next_path + 1 },
)

-- The deferred `os.Remove` of a live file, whose failure is ignored: the file is left behind then.
unfoldable pub remove_live : Bool → LivePath → Store → Store
remove_live failed p st = if failed then st else record st { live = update_live p none st.live }

-- `setMaterialized` and `deleteMaterialized`
unfoldable pub set_materialized : Key → LivePath → Store → Store
set_materialized k p st = record st { materialized = update k (some p) st.materialized }

unfoldable pub delete_materialized : Key → Store → Store
delete_materialized k st = record st { materialized = update k none st.materialized }
