-- ===== src/Tests/Processes.antt =====
-- The theorems on runs at a cache with one run that starts beside an abandoned one.
use text.Mathlib.Text.{◌==◌ as str_eq}
use text.Mathlib.TextEquality.{eq_iff}
use gocachez.Prelude.{
  none, ◌≡◌, ◌≢◌, refl, true, false, Option, some, List, [], ◌∷◌, String, All, find, select,
  if◌then◌else◌, arith, codes,
}
use gocachez.Prelude.Int.{pos}
use gocachez.Catalog.{RunRow, init, register_run, delete_where, list_other_runs, update_where}
use gocachez.Files.{FilePath, retained}
use gocachez.Orphans.{Disk}
use gocachez.Runs.{
  Runs, Opening, Reclaiming, find_dir, new_store_locked, set_lock, cleanup_abandoned_runs,
}
use gocachez.Runs.Close.{WalkedPath, regular, not_regular, Closing, unregister_run}
use gocachez.Runs.Expire.{LockAttempt, expire_retained_when_idle, Walked}
use gocachez.Runs.Clean.{Cleaning, clean_locked}
use gocachez.Runs.Held.{IsOpen}
use gocachez.Runs.Others.{RunStep, start, die, clean_up, unused, IsOther, take_steps}
use gocachez.Runs.InUse.{take_steps-new_store_locked, expire_retained_when_idle-IsOpen}
use gocachez.Runs.Stranded.{IsGone, IsAbandoned, Reclaims}
use gocachez.Runs.Reclaim.{cleanup_abandoned_runs-IsGone}
use gocachez.Runs.Ended.{Ended, unregister_run-Ended}
use gocachez.Runs.Active.{InUse, clean_locked-InUse}

-- Two killed helpers left a row and a directory.
abbrev lost_row : RunRow
lost_row = record { run_id = "run-07"; path = "live/07/run-07"; created_at = pos 1 }

abbrev stuck_row : RunRow
stuck_row = record { run_id = "run-08"; path = "live/08/run-08"; created_at = pos 1 }

abbrev littered : Runs
littered = record {
  catalog = record init { runs = stuck_row ∷ lost_row ∷ [] };
  dirs =
      record { path = "live/08/run-08"; lock = some (record { held = false; modified = pos 1 }) }
      ∷ record { path = "live/07/run-07"; lock = some (record { held = false; modified = pos 1 }) }
      ∷ [];
}

abbrev all_well : Opening
all_well = record { creates = true; locks = true; opens = true; prepares = true; registers = true }

abbrev all_works : Reclaiming
all_works = record { stats = true; tries = true; deletes = true; unlocks = true; removes = true }

-- Nothing can be removed at run-08.
abbrev some_fail : RunRow → Reclaiming
some_fail r = if str_eq r.run_id "run-08" then record all_works { deletes = false } else all_works

abbrev after_start : Runs
after_start = (new_store_locked all_well "run-09" "live/09/run-09" (pos 5) littered).1

abbrev traffic : List RunStep
traffic =
    start all_well "run-10" "live/10/run-10" (pos 6)
    ∷ die "live/10/run-10"
    ∷ clean_up true some_fail "run-09" (pos 7)
    ∷ unused (λ _. all_works) (pos 8) (some ("live/09/run-09" ∷ "live/10/run-10" ∷ []))
    ∷ []

differs : (s t : String) → str_eq s t ≡ false → s ≢ t
differs s t f e = absurd (ground (arith, f, (eq_iff s t).1 e))

others : All (IsOther "run-09" "live/09/run-09") traffic
unfolding IsOther
others = (
  (differs "run-10" "run-09" refl, differs "live/10/run-10" "live/09/run-09" refl),
  (differs "live/10/run-10" "live/09/run-09" refl, (tt, (tt, tt))),
)

take_steps-new_store_locked_example :
    IsOpen "run-09" "live/09/run-09" (take_steps traffic after_start)
take_steps-new_store_locked_example =
    take_steps-new_store_locked all_well "run-09" "live/09/run-09" (pos 5) littered traffic
      (unfold find_dir find in refl) (unfold new_store_locked in refl) others

opened_run : IsOpen "run-09" "live/09/run-09" after_start
unfolding new_store_locked find_dir find set_lock update_where register_run delete_where select
opened_run = record {
  dir = record { path = "live/09/run-09"; lock = some (record { held = true; modified = pos 5 }) };
  row = record { run_id = "run-09"; path = "live/09/run-09"; created_at = pos 5 };
  its_dir = refl;
  its_lock = refl;
  its_row = refl;
  one_path = ((λ e. absurd (ground arith)), ((λ e. absurd (ground arith)), ((λ e. refl), tt)));
}

abbrev ready : LockAttempt
ready = record {
  tries = true;
  free = true;
  listed = true;
  faults = λ _. all_works;
  counts = true;
  stamps = true;
}

abbrev retained_file : FilePath
retained_file = record { tree = retained; dir = codes "02"; base = codes "0202.a" }

abbrev files : Disk
files _ = some (pos 0)

abbrev seen : Option (List Walked)
seen = some (record { path = retained_file; gone = false; modified = pos 0 } ∷ [])

expire_retained_when_idle-IsOpen_example :
    (expire_retained_when_idle ready ready
      (λ _. true)
      (λ _. true)
      (pos 1)
      ""
      (pos 7200000000000)
      seen
      littered
      after_start
      files).2
    ≡ files
expire_retained_when_idle-IsOpen_example =
    expire_retained_when_idle-IsOpen ready ready (λ _. true) (λ _. true) (pos 1) ""
      (pos 7200000000000) seen littered after_start files "run-09" "live/09/run-09" opened_run

-- The lost run is reclaimed although the row of the stuck one cannot be deleted.
cleanup_abandoned_runs-IsGone_example :
    All
      (λ row.
        Reclaims (some_fail row)
        → IsAbandoned row littered
        → IsGone row (cleanup_abandoned_runs true some_fail "run-09" (pos 7) littered).1)
      (list_other_runs "run-09" littered.catalog)
cleanup_abandoned_runs-IsGone_example =
    cleanup_abandoned_runs-IsGone some_fail (pos 7) "run-09" littered

abbrev all_clean : Cleaning
all_clean = record {
  opens = true;
  listed = true;
  faults = λ _. all_works;
  listing = some ("live/09/run-09" ∷ "live/08/run-08" ∷ []);
  dir_faults = λ _. all_works;
  reads = λ _. true;
  scan = λ t dir. some [];
  locks = λ _. true;
  unlinking = record { stats = λ _. true; removes = λ _. true };
  empties = true;
  counts = true;
  closes = true;
  wipes_blobs = true;
  wipes_live = true;
  wipes_retained = true;
  wipes_catalog = true;
  wipes_stamps = true;
}

clean_locked-InUse_example :
    InUse "run-09" "live/09/run-09"
      (clean_locked all_clean
        (pos 9)
        (record { runs = after_start; has_catalog = true; disk = files })).1
clean_locked-InUse_example =
    clean_locked-InUse "run-09" "live/09/run-09" all_clean (pos 9) after_start files opened_run

-- A file that could not be dealt with keeps the directory.
abbrev some_escaped : List WalkedPath
some_escaped = regular (some true) true ∷ regular none true ∷ not_regular true ∷ []

abbrev smooth_close : Closing
smooth_close = record {
  removes_empty = true;
  deletes = true;
  touches = true;
  unlocks = true;
  removes = true;
}

unregister_run-Ended_example :
    Ended smooth_close some_escaped "run-09" "live/09/run-09"
      (pos 9)
      (unregister_run smooth_close some_escaped "run-09" "live/09/run-09" (pos 9) after_start).1
unregister_run-Ended_example =
    unregister_run-Ended smooth_close "run-09" "live/09/run-09" (pos 9) after_start some_escaped
      opened_run
