-- ===== src/Runs/Expire.antt =====
-- The sweep of run directories and the expiry of retained files (cache.go).
use gocachez.Prelude.{
  Bool, true, false, not, ◌&&◌, ◌||◌, Option, none, some, List, [], ◌∷◌, String, if◌then◌else◌,
  ◌==◌, codes,
}
use gocachez.Prelude.Int.{ℤ, pos, leb_ℤ, ltb_ℤ}
use gocachez.Catalog.{RunRow, count_runs}
use gocachez.Maintenance.Due.{trim_cutoff}
use gocachez.Files.{FilePath}
use gocachez.Orphans.{Disk, unlink}
use gocachez.Bytes.{has_suffix}
use gocachez.Runs.{Runs, LockFile, Reclaiming, find_dir, remove_dir, cleanup_abandoned_runs}

-- What can fail at one directory of a sweep.
pub record Sweeping : Type 0 where
  pub tries : Bool
  pub stats : Bool
  pub unlocks : Bool
  pub removes : Bool

-- `retainedLiveRunExpired` and `liveRunExpiredIfUnlocked`: none is an error. The lock is opened for
-- reading, so that a missing lock file is not created.
unfoldable pub live_run_expired_if_unlocked : Sweeping → Option LockFile → ℤ → Option Bool
live_run_expired_if_unlocked s none cutoff = some false
live_run_expired_if_unlocked s (some l) cutoff =
    if not s.tries
    then none
    else if l.held
    then some false
    else if s.stats && s.unlocks
    then some (ltb_ℤ l.modified cutoff)
    else none

-- The directories of `sweepLiveRuns`, in the order of the listing.
unfoldable pub sweep_dirs : (String → Sweeping) → ℤ → List String → Runs → Bool × Runs
sweep_dirs faults cutoff [] w = (true, w)
sweep_dirs faults cutoff (path ∷ paths) w = elim (find_dir path w) [
  | none ↦ sweep_dirs faults cutoff paths w
  | some d ↦ elim (live_run_expired_if_unlocked (faults path) d.lock cutoff) [
    | none ↦ (false, w)
    | some expired ↦ elim expired [
      | false ↦ sweep_dirs faults cutoff paths w
      | true ↦ elim (faults path).removes [
        | false ↦ (false, w)
        | true ↦ sweep_dirs faults cutoff paths (remove_dir path w)
      ]
    ]
  ]
]

-- `sweepLiveRuns`; the listing is what `liveRunDirs` reports, none where it fails.
unfoldable pub sweep_live_runs :
    ℤ → ℤ → Option (List String) → (String → Sweeping) → Runs → Bool × Runs
sweep_live_runs retained_age now listing faults w =
    if leb_ℤ retained_age (pos 0) then (true, w) else elim listing [
      | none ↦ (false, w)
      | some paths ↦ sweep_dirs faults (trim_cutoff retained_age now) paths w
    ]

-- What the walk of the retained files reports of each: whether it could be examined, and when it
-- was modified.
pub record Walked : Type 0 where
  pub path : FilePath
  pub gone : Bool
  pub modified : ℤ

abbrev pub is_retained_name : FilePath → Bool
is_retained_name p = has_suffix p.base (codes ".a") || has_suffix p.base (codes ".go")

-- `planOldRetainedFiles`
unfoldable pub expired_paths : ℤ → List Walked → List FilePath
expired_paths cutoff [] = []
expired_paths cutoff (x ∷ xs) =
    let rest = expired_paths cutoff xs in
    if is_retained_name x.path && not x.gone && ltb_ℤ x.modified cutoff then x.path ∷ rest else rest

unfoldable pub plan_old_retained_files : ℤ → ℤ → Option (List Walked) → Option (List FilePath)
plan_old_retained_files retained_age now walk =
    if leb_ℤ retained_age (pos 0) then some [] else elim walk [
      | none ↦ none
      | some xs ↦ some (expired_paths (trim_cutoff retained_age now) xs)
    ]

-- `removeExpiredRetainedFiles`, with whether a file can be examined and removed.
unfoldable pub remove_expired_retained_files :
    (FilePath → Bool) → (FilePath → Bool) → ℤ → List FilePath → Disk → Bool × Disk
remove_expired_retained_files stats removes cutoff [] disk = (true, disk)
remove_expired_retained_files stats removes cutoff (p ∷ ps) disk = elim (disk p) [
  | none ↦ remove_expired_retained_files stats removes cutoff ps disk
  | some at ↦ elim (stats p) [
    | false ↦ (false, disk)
    | true ↦ elim (ltb_ℤ at cutoff) [
      | false ↦ remove_expired_retained_files stats removes cutoff ps disk
      | true ↦ elim (removes p) [
        | false ↦ (false, disk)
        | true ↦ remove_expired_retained_files stats removes cutoff ps (unlink p disk)
      ]
    ]
  ]
]

-- One attempt at the lifecycle lock and at the count of runs.
pub record LockAttempt : Type 0 where
  pub tries : Bool
  pub free : Bool
  pub listed : Bool
  pub faults : RunRow → Reclaiming
  pub counts : Bool
  pub stamps : Bool

-- `cacheIdle`: none is an error.
unfoldable pub cache_idle : LockAttempt → String → ℤ → Runs → Option Bool × Runs
cache_idle a own now w =
    if not a.tries
    then (none, w)
    else if not a.free
    then (some false, w)
    else let w1 = (cleanup_abandoned_runs a.listed a.faults own now w).1 in
      (if a.counts then some (count_runs w1.catalog == 0) else none, w1)

-- `expireRetainedWhenIdle`: whether there was no error, whether the pass is stamped as done, and the
-- files. `w'` and `disk` are the runs and the files when the lock is taken the second time.
unfoldable pub expire_retained_when_idle :
    LockAttempt
    → LockAttempt
    → (FilePath → Bool)
    → (FilePath → Bool)
    → ℤ
    → String
    → ℤ
    → Option (List Walked)
    → Runs
    → Runs
    → Disk
    → Bool × Bool × Disk
expire_retained_when_idle probe confirm stats removes retained_age own now walk w w' disk =
    elim (cache_idle probe own now w).0 [
      | none ↦ (false, false, disk)
      | some idle ↦ elim idle [
        | false ↦ (true, false, disk)
        | true ↦ elim (plan_old_retained_files retained_age now walk) [
          | none ↦ (false, false, disk)
          | some expired ↦
              if not confirm.tries
              then (false, false, disk)
              else if not confirm.free
              then (true, false, disk)
              else if not confirm.counts
              then (false, false, disk)
              else if not (count_runs w'.catalog == 0)
              then (true, false, disk)
              else let (ok, disk') =
                  remove_expired_retained_files stats removes (trim_cutoff retained_age now) expired
                    disk in
                (ok && confirm.stamps, ok && confirm.stamps, disk')
        ]
      ]
    ]
