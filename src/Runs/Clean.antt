-- ===== src/Runs/Clean.antt =====
-- The clean command (clean.go).
use gocachez.Prelude.{
  ℕ, Bool, true, false, not, ◌&&◌, ◌||◌, Option, none, some, List, [], ◌∷◌, String, if◌then◌else◌,
  ltb,
}
use gocachez.Prelude.Int.{ℤ}
use gocachez.Catalog.{Catalog, RunRow, count_runs, init}
use gocachez.Files.{Tree, blobs, retained}
use gocachez.Orphans.{Disk, Scan, Unlinking, plan_orphans, remove_orphans, keep_every_output}
use gocachez.Runs.{
  Runs, Reclaiming, find_dir, remove_dir, is_held, make_lock, cleanup_abandoned_runs,
}

-- `removeUnusedLiveDirs`: whether a directory is in use, none at an error.
unfoldable pub remove_unused_dirs :
    (String → Reclaiming) → ℤ → List String → Bool → Runs → Option Bool × Runs
remove_unused_dirs faults now [] active w = (some active, w)
remove_unused_dirs faults now (path ∷ paths) active w = elim (find_dir path w) [
  | none ↦ (none, w)
  | some d ↦ if not (faults path).tries then (none, w) else elim (is_held d.lock) [
    | true ↦ remove_unused_dirs faults now paths true w
    | false ↦ elim ((faults path).unlocks && (faults path).removes) [
      | false ↦ (none, make_lock path now d.lock w)
      | true ↦ remove_unused_dirs faults now paths active (remove_dir path w)
    ]
  ]
]

unfoldable pub remove_unused_live_dirs :
    (String → Reclaiming) → ℤ → Option (List String) → Runs → Option Bool × Runs
remove_unused_live_dirs faults now none w = (none, w)
remove_unused_live_dirs faults now (some paths) w = remove_unused_dirs faults now paths false w

-- The cache as clean finds it: the runs, whether there is a catalog, and the files.
pub record Tidy : Type 0 where
  pub runs : Runs
  pub has_catalog : Bool
  pub disk : Disk

-- What clean meets on its way.
pub record Cleaning : Type 0 where
  pub opens : Bool
  pub listed : Bool
  pub faults : RunRow → Reclaiming
  pub listing : Option (List String)
  pub dir_faults : String → Reclaiming
  pub reads : ℕ → Bool
  pub scan : Scan
  pub locks : ℕ → Bool
  pub unlinking : Unlinking
  pub empties : Bool
  pub counts : Bool
  pub closes : Bool
  pub wipes_blobs : Bool
  pub wipes_live : Bool
  pub wipes_retained : Bool
  pub wipes_catalog : Bool
  pub wipes_stamps : Bool

unfoldable pub without : Tree → Disk → Disk
without blobs disk p = elim p.tree [ blobs ↦ none | retained ↦ disk p ]
without retained disk p = elim p.tree [ blobs ↦ disk p | retained ↦ none ]

-- The end of `cleanLocked`, where nothing is in use.
unfoldable pub wipe : Cleaning → Tidy → Bool × Tidy
wipe c t =
    if not c.wipes_blobs
    then (false, t)
    else let t1 = record t { disk = without blobs t.disk } in
      if not c.wipes_live
      then (false, t1)
      else let t2 = record t1 { runs = record t1.runs { dirs = [] } } in
        if not c.wipes_retained
        then (false, t2)
        else let t3 = record t2 { disk = without retained t2.disk } in
          if not c.wipes_catalog then (false, t3) else (
            c.wipes_stamps,
            record t3 { runs = record t3.runs { catalog = init }; has_catalog = false },
          )

-- The orphans and the number of runs, where there is a catalog: none at an error.
unfoldable pub clean_catalog : Cleaning → ℤ → Tidy → Option ℕ × Disk
clean_catalog c now t =
    let catalogs : ℕ → Option Catalog = λ n. if c.reads n then some t.runs.catalog else none in
    elim (plan_orphans catalogs c.scan false keep_every_output) [
      | none ↦ (none, t.disk)
      | some orphans ↦
          let (ok, disk) =
            remove_orphans catalogs (λ _ d. d) c.locks c.unlinking now orphans t.disk in
          (if ok && c.empties && c.counts then some (count_runs t.runs.catalog) else none, disk)
    ]

-- What follows once it is known whether a directory is in use.
unfoldable pub clean_rest : Cleaning → ℤ → Bool → Tidy → Bool × Tidy
clean_rest c now active t =
    let (counted, disk) = if t.has_catalog then clean_catalog c now t else (some 0, t.disk) in
    let t1 = record t { disk = disk } in
    elim counted [
      | none ↦ (false, t1)
      | some n ↦ elim (active || ltb 0 n) [
        | true ↦ (not t.has_catalog || c.closes, t1)
        | false ↦ if t.has_catalog && not c.closes then (false, t1) else wipe c t1
      ]
    ]

-- `cleanLocked`: whether there was no error, and the cache. Clean has no run of its own.
unfoldable pub clean_locked : Cleaning → ℤ → Tidy → Bool × Tidy
clean_locked c now t =
    if t.has_catalog && not c.opens
    then (false, t)
    else let (ok, w1) =
        if t.has_catalog
        then cleanup_abandoned_runs c.listed c.faults "" now t.runs
        else (true, t.runs) in
      if not ok
      then (false, record t { runs = w1 })
      else let (live, w2) = remove_unused_live_dirs c.dir_faults now c.listing w1 in
        elim live [
          | none ↦ (false, record t { runs = w2 })
          | some active ↦ clean_rest c now active (record t { runs = w2 })
        ]
