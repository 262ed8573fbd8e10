-- ===== src/Runs/Close.antt =====
-- How a run is closed (store.go).
use gocachez.Prelude.{
  Bool, true, false, not, ◌&&◌, ◌||◌, Option, none, some, List, [], ◌∷◌, String, if◌then◌else◌,
}
use gocachez.Prelude.Int.{ℤ}
use gocachez.Catalog.{delete_run}
use gocachez.Runs.{Runs, LockFile, find_dir, set_lock, remove_dir}

-- What the walk of a run directory meets: a path that cannot be read, one that is not a regular
-- file, or a regular file; whether its export could be taken, and whether it can be removed.
pub data WalkedPath : Type 0 where
  unreadable : WalkedPath
  not_regular : Bool → WalkedPath
  regular : Option Bool → Bool → WalkedPath

-- What becomes of a path: whether the directory has to be kept for it, and whether it failed.
unfoldable pub prepare_path : WalkedPath → Bool × Bool
prepare_path unreadable = (true, true)
prepare_path (not_regular removes) = (not removes, not removes)
prepare_path (regular none removes) = (true, true)
prepare_path (regular (some true) removes) = (true, false)
prepare_path (regular (some false) removes) = (not removes, not removes)

-- The walk of `prepareLiveRunForClose`, which no failure ends.
unfoldable pub walk_live_run : List WalkedPath → Bool × Bool
walk_live_run [] = (false, false)
walk_live_run (p ∷ ps) =
    let (kept, failed) = prepare_path p in
    let (more_kept, more_failed) = walk_live_run ps in (kept || more_kept, failed || more_failed)

-- `prepareLiveRunForClose`: whether anything is retained, and whether anything failed.
-- `removes_empty` is that `removeEmptyDirs` at the end returns no error.
unfoldable pub prepare_live_run_for_close : Bool → List WalkedPath → Bool × Bool
prepare_live_run_for_close removes_empty ps =
    let (kept, failed) = walk_live_run ps in (kept, failed || not removes_empty)

-- What can fail while a run is closed.
pub record Closing : Type 0 where
  pub removes_empty : Bool
  pub deletes : Bool
  pub touches : Bool
  pub unlocks : Bool
  pub removes : Bool

unfoldable pub released : Option LockFile → Option LockFile
released none = none
released (some l) = some (record l { held = false })

unfoldable pub stamped : ℤ → Option LockFile → Option LockFile
stamped now none = none
stamped now (some l) = some (record l { modified = now })

unfoldable pub lock_of : String → Runs → Option LockFile
lock_of path w = elim (find_dir path w) [ none ↦ none | some d ↦ d.lock ]

-- `unregisterRun`: whether there was no error, and the runs. Closing the lock file releases the
-- lock also where unlocking it failed.
unfoldable pub unregister_run : Closing → List WalkedPath → String → String → ℤ → Runs → Bool × Runs
unregister_run f paths run path now w =
    let (kept, failed) = prepare_live_run_for_close f.removes_empty paths in
    let w1 = if f.deletes then record w { catalog = delete_run run w.catalog } else w in
    let w2 = if kept && f.touches then set_lock path (stamped now (lock_of path w1)) w1 else w1 in
    let w3 = set_lock path (released (lock_of path w2)) w2 in
    let w4 = if not kept && f.removes then remove_dir path w3 else w3 in
    (not failed && f.deletes && (not kept || f.touches) && f.unlocks && (kept || f.removes), w4)
