-- ===== src/Runs.antt =====
-- The life of a run (store.go, cache.go and clean.go): its row in the catalog, its directory under
-- live/ and the lock in that directory. A process that dies leaves all three, but holds no lock.
pub mod Close
pub mod Expire
pub mod Clean
pub mod Held
pub mod Steps
pub mod Others
pub mod Stranded
pub mod Reclaim
pub mod InUse
pub mod Active
pub mod Ended
use gocachez.Prelude.{
  ℕ, zero, suc, ◌+◌, Bool, true, false, not, ◌&&◌, ◌||◌, Option, none, some, List, [], ◌∷◌, ◌++◌,
  String, find, select, length, if◌then◌else◌, ltb,
}
use text.Mathlib.Text.{◌==◌ as str_eq}
use gocachez.Prelude.Int.{ℤ, ltb_ℤ}
use gocachez.Catalog.{
  Catalog, RunRow, delete_where, update_where, register_run, delete_run, list_other_runs,
  count_runs,
}

-- The lock file of a run directory: whether a process holds its lock, and its modification time.
pub record LockFile : Type 0 where
  pub held : Bool
  pub modified : ℤ

-- A directory under live/, by its path in the cache.
pub record RunDir : Type 0 where
  pub path : String
  pub lock : Option LockFile

pub record Runs : Type 0 where
  pub catalog : Catalog
  pub dirs : List RunDir

abbrev pub has_path : String → RunDir → Bool
has_path path d = str_eq d.path path

unfoldable pub find_dir : String → Runs → Option RunDir
find_dir path w = find (has_path path) w.dirs

-- `os.RemoveAll` of a run directory
unfoldable pub remove_dir : String → Runs → Runs
remove_dir path w = record w { dirs = delete_where (has_path path) w.dirs }

unfoldable pub set_lock : String → Option LockFile → Runs → Runs
set_lock path l w = record w {
  dirs = update_where (has_path path) (λ d. record d { lock = l }) w.dirs;
}

abbrev pub is_held : Option LockFile → Bool
is_held none = false
is_held (some l) = l.held

-- What can fail while a store is opened, each of them noticed where it is called.
pub record Opening : Type 0 where
  pub creates : Bool
  pub locks : Bool
  pub opens : Bool
  pub prepares : Bool
  pub registers : Bool

-- `newStoreLocked`: the directory has a new path, its lock is taken before its row is written, and
-- a failure takes the directory away again. The result is whether there is a store.
unfoldable pub new_store_locked : Opening → String → String → ℤ → Runs → Bool × Runs
new_store_locked o run path now w =
    if not o.creates
    then (false, w)
    else let w1 = record w { dirs = w.dirs ++ record { path = path; lock = none } ∷ [] } in
      if not o.locks
      then (false, remove_dir path w1)
      else let w2 = set_lock path (some (record { held = true; modified = now })) w1 in
        if not (o.opens && o.prepares && o.registers)
        then (false, remove_dir path w2)
        else (true, record w2 { catalog = register_run run path now w2.catalog })

-- What can fail while a run is reclaimed.
pub record Reclaiming : Type 0 where
  pub stats : Bool
  pub tries : Bool
  pub deletes : Bool
  pub unlocks : Bool
  pub removes : Bool

-- Whether the run was reclaimed, or an error.
pub data Reclaimed : Type 0 where
  reclaimed : Reclaimed
  in_use : Reclaimed
  reclaim_fails : Reclaimed

-- Trying a lock creates its file.
unfoldable pub make_lock : String → ℤ → Option LockFile → Runs → Runs
make_lock path now none w = set_lock path (some (record { held = false; modified = now })) w
make_lock path now (some l) w = w

-- `tryReclaimRun`
unfoldable pub try_reclaim_run : Reclaiming → String → String → ℤ → Runs → Reclaimed × Runs
try_reclaim_run r run path now w =
    if not r.stats then (reclaim_fails, w) else elim (find_dir path w) [
      | none ↦
          if r.deletes
          then (reclaimed, record w { catalog = delete_run run w.catalog })
          else (reclaim_fails, w)
      | some d ↦ if not r.tries then (reclaim_fails, w) else elim (is_held d.lock) [
        | true ↦ (in_use, w)
        | false ↦
            let w0 = make_lock path now d.lock w in
            let w1 = record w0 { catalog = delete_run run w0.catalog } in
            if not r.deletes
            then (reclaim_fails, w0)
            else if r.unlocks && r.removes
            then (reclaimed, remove_dir path w1)
            else (reclaim_fails, w1)
      ]
    ]

-- `cleanupAbandonedRuns`: whether there was no error, and the runs. `faults` is what fails at each row.
unfoldable pub reclaim_each : (RunRow → Reclaiming) → ℤ → List RunRow → Runs → Bool × Runs
reclaim_each faults now [] w = (true, w)
reclaim_each faults now (row ∷ rows) w =
    let (r, w1) = try_reclaim_run (faults row) row.run_id row.path now w in
    let (ok, w2) = reclaim_each faults now rows w1 in
    (elim r [ reclaimed ↦ ok | in_use ↦ ok | reclaim_fails ↦ false ], w2)

unfoldable pub cleanup_abandoned_runs :
    Bool → (RunRow → Reclaiming) → String → ℤ → Runs → Bool × Runs
cleanup_abandoned_runs listed faults own now w =
    if listed then reclaim_each faults now (list_other_runs own w.catalog) w else (false, w)
