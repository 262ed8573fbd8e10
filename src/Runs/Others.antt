-- ===== src/Runs/Others.antt =====
-- The runs under any sequence of operations of the processes that share the cache.
use text.Mathlib.TextEquality.{eq_iff}
use gocachez.Prelude.{
  ◌≢◌, Bool, true, false, not, ◌&&◌, Option, none, some, List, [], ◌∷◌, ◌++◌, String, All,
  All-append, Bool-cases, inl, inr, if◌then◌else◌,
}
use gocachez.Prelude.Int.{ℤ, pos, leb_ℤ}
use gocachez.Maintenance.Due.{trim_cutoff}
use gocachez.Catalog.{RunRow, has_run_id, delete_where, delete_run, register_run}
use gocachez.Catalog.Tables.{find-append_hit}
use gocachez.Runs.{
  Runs, RunDir, has_path, find_dir, set_lock, Opening, new_store_locked, Reclaiming,
  cleanup_abandoned_runs,
}
use gocachez.Runs.Close.{
  WalkedPath, Closing, unregister_run, prepare_live_run_for_close, released, lock_of,
}
use gocachez.Runs.Expire.{Sweeping, sweep_live_runs}
use gocachez.Runs.Clean.{remove_unused_live_dirs}
use gocachez.Runs.Held.{IsOpen, remove_dir-IsOpen, set_lock-IsOpen, delete_run-IsOpen}
use gocachez.Runs.Steps.{
  cleanup_abandoned_runs-IsOpen, sweep_dirs-IsOpen, remove_unused_dirs-IsOpen,
}

-- What a process does to the runs. A process that dies lets its lock go.
pub data RunStep : Type 0 where
  start : Opening → String → String → ℤ → RunStep
  finish : Closing → List WalkedPath → String → String → ℤ → RunStep
  die : String → RunStep
  clean_up : Bool → (RunRow → Reclaiming) → String → ℤ → RunStep
  sweep : ℤ → ℤ → Option (List String) → (String → Sweeping) → RunStep
  unused : (String → Reclaiming) → ℤ → Option (List String) → RunStep

unfoldable pub take_step : RunStep → Runs → Runs
unfolding new_store_locked unregister_run set_lock cleanup_abandoned_runs sweep_live_runs
    remove_unused_live_dirs
take_step (start o run path now) w = (new_store_locked o run path now w).1
take_step (finish f paths run path now) w = (unregister_run f paths run path now w).1
take_step (die path) w = set_lock path (released (lock_of path w)) w
take_step (clean_up listed faults own now) w = (cleanup_abandoned_runs listed faults own now w).1
take_step (sweep age now listing faults) w = (sweep_live_runs age now listing faults w).1
take_step (unused faults now listing) w = (remove_unused_live_dirs faults now listing w).1

unfoldable pub take_steps : List RunStep → Runs → Runs
take_steps [] w = w
take_steps (s ∷ ss) w = take_steps ss (take_step s w)

-- The step starts, finishes or kills no such run, and makes no such directory.
unfoldable pub IsOther : String → String → RunStep → Type 0
IsOther run path (start o id p now) = (id ≢ run) × (p ≢ path)
IsOther run path (finish f paths id p now) = (id ≢ run) × (p ≢ path)
IsOther run path (die p) = p ≢ path
IsOther run path (clean_up listed faults own now) = Unit
IsOther run path (sweep age now listing faults) = Unit
IsOther run path (unused faults now listing) = Unit

module _ (run path : String) where
  add_dir-IsOpen :
      (d : RunDir) (w : Runs)
      → IsOpen run path w
      → IsOpen run path (record w { dirs = w.dirs ++ d ∷ [] })
  unfolding find_dir
  add_dir-IsOpen d w o = record {
    dir = o.dir;
    row = o.row;
    its_dir = find-append_hit (has_path path) w.dirs d o.dir o.its_dir;
    its_lock = o.its_lock;
    its_row = o.its_row;
    one_path = o.one_path;
  }

  register_run-IsOpen :
      (id p : String) (at : ℤ) (w : Runs)
      → id ≢ run
      → IsOpen run path w
      → IsOpen run path (record w { catalog = register_run id p at w.catalog })
  unfolding register_run
  register_run-IsOpen id p at w h o =
      let gone = delete_run-IsOpen run path id w h o in
      let new : RunRow = record { run_id = id; path = p; created_at = at } in
      record {
        dir = gone.dir;
        row = gone.row;
        its_dir = unfold find_dir in gone.its_dir;
        its_lock = gone.its_lock;
        its_row =
            find-append_hit (has_run_id run) (delete_where (has_run_id id) w.catalog.runs) new
              gone.row (unfold delete_run in gone.its_row);
        one_path =
            All-append _ (delete_where (has_run_id id) w.catalog.runs) (new ∷ [])
              (unfold delete_run in gone.one_path) (λ t. absurd (h ((eq_iff id run).0 t)), tt);
      }

  new_store_locked-IsOpen :
      (o : Opening) (id p : String) (now : ℤ) (w : Runs)
      → id ≢ run
      → p ≢ path
      → IsOpen run path w
      → IsOpen run path (new_store_locked o id p now w).1
  unfolding new_store_locked
  new_store_locked-IsOpen o id p now w h k i = elim (Bool-cases o.creates) [
    | inr f ↦ rw (new_store_locked, f) i
    | inl t ↦
        let w1 : Runs = record w { dirs = w.dirs ++ record { path = p; lock = none } ∷ [] } in
        let i1 = add_dir-IsOpen (record { path = p; lock = none }) w i in
        let i2 =
          set_lock-IsOpen run path p (some (record { held = true; modified = now })) w1 k i1 in
        elim (Bool-cases o.locks) [
          | inr f ↦ rw (new_store_locked, t, f) (remove_dir-IsOpen run path p w1 k i1)
          | inl l ↦ elim (Bool-cases (o.opens && o.prepares && o.registers)) [
            | inr f ↦ rw (new_store_locked, t, l, f) (remove_dir-IsOpen run path p _ k i2)
            | inl r ↦ rw (new_store_locked, t, l, r) (register_run-IsOpen id p now _ h i2)
          ]
        ]
  ]

  if-IsOpen :
      (b : Bool) (v w : Runs)
      → IsOpen run path v
      → IsOpen run path w
      → IsOpen run path (if b then v else w)
  if-IsOpen true v w i j = i
  if-IsOpen false v w i j = j

  unregister_run-IsOpen :
      (f : Closing) (paths : List WalkedPath) (id p : String) (now : ℤ) (w : Runs)
      → id ≢ run
      → p ≢ path
      → IsOpen run path w
      → IsOpen run path (unregister_run f paths id p now w).1
  unfolding unregister_run
  unregister_run-IsOpen f paths id p now w h k i =
      let i1 = if-IsOpen f.deletes _ w (delete_run-IsOpen run path id w h i) i in
      let i2 =
        if-IsOpen ((prepare_live_run_for_close f.removes_empty paths).0 && f.touches) _ _
          (set_lock-IsOpen run path p _ _ k i1) i1 in
      let i3 = set_lock-IsOpen run path p _ _ k i2 in
      if-IsOpen (not (prepare_live_run_for_close f.removes_empty paths).0 && f.removes) _ _
        (remove_dir-IsOpen run path p _ k i3) i3

  sweep_live_runs-IsOpen :
      (age now : ℤ) (listing : Option (List String)) (faults : String → Sweeping) (w : Runs)
      → IsOpen run path w
      → IsOpen run path (sweep_live_runs age now listing faults w).1
  unfolding sweep_live_runs
  sweep_live_runs-IsOpen age now none faults w i = elim (Bool-cases (leb_ℤ age (pos 0))) [
    | inl t ↦ rw (sweep_live_runs, t) i
    | inr f ↦ rw (sweep_live_runs, f) i
  ]
  sweep_live_runs-IsOpen age now (some paths) faults w i = elim (Bool-cases (leb_ℤ age (pos 0))) [
    | inl t ↦ rw (sweep_live_runs, t) i
    | inr f ↦
        rw (sweep_live_runs, f) (sweep_dirs-IsOpen run path faults (trim_cutoff age now) paths w i)
  ]

  take_step-IsOpen :
      (s : RunStep) (w : Runs)
      → IsOther run path s
      → IsOpen run path w
      → IsOpen run path (take_step s w)
  unfolding take_step IsOther
  take_step-IsOpen (start o id p now) w h i = new_store_locked-IsOpen o id p now w h.0 h.1 i
  take_step-IsOpen (finish f paths id p now) w h i =
      unregister_run-IsOpen f paths id p now w h.0 h.1 i
  take_step-IsOpen (die p) w h i = set_lock-IsOpen run path p _ w h i
  take_step-IsOpen (clean_up listed faults own now) w h i =
      cleanup_abandoned_runs-IsOpen run path listed faults own now w i
  take_step-IsOpen (sweep age now listing faults) w h i =
      sweep_live_runs-IsOpen age now listing faults w i
  take_step-IsOpen (unused faults now none) w h i = unfold remove_unused_live_dirs in i
  take_step-IsOpen (unused faults now (some paths)) w h i =
      unfold remove_unused_live_dirs in
      remove_unused_dirs-IsOpen run path faults now paths false w i

  pub take_steps-IsOpen :
      (ss : List RunStep) (w : Runs)
      → All (IsOther run path) ss
      → IsOpen run path w
      → IsOpen run path (take_steps ss w)
  unfolding take_steps
  take_steps-IsOpen [] w a i = i
  take_steps-IsOpen (s ∷ ss) w a i =
      take_steps-IsOpen ss (take_step s w) a.1 (take_step-IsOpen s w a.0 i)
