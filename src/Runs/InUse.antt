-- ===== src/Runs/InUse.antt =====
-- A run is in use from its start to its end.
use text.Mathlib.TextEquality.{eq_iff}
use gocachez.Prelude.{
  ◌≡◌, refl, Bool, true, false, ◌&&◌, Option, none, some, List, [], ◌∷◌, ◌++◌, String, find, All,
  All-imp, All-append, arith, length, ◌==◌, Bool-cases, Option-cases, inl, inr,
}
use gocachez.Prelude.Int.{ℤ}
use gocachez.Catalog.{RunRow, has_run_id, delete_where, update_where, register_run}
use gocachez.Catalog.Tables.{
  find-append_miss, find-delete_where_self, find-update_where_self, All-of_find-none,
}
use gocachez.Runs.{Runs, RunDir, has_path, find_dir, set_lock, Opening, new_store_locked}
use gocachez.Files.{FilePath}
use gocachez.Orphans.{Disk}
use gocachez.Runs.Expire.{
  LockAttempt, Walked, cache_idle, plan_old_retained_files, expire_retained_when_idle,
}
use gocachez.Catalog.{count_runs}
use gocachez.Runs.Held.{IsOpen}
use gocachez.Runs.Others.{RunStep, take_steps, IsOther, take_steps-IsOpen}

opened :
    (run path : String) (now : ℤ) (w : Runs)
    → find_dir path w ≡ none
    → IsOpen run path (record {
      dirs =
          update_where
            (has_path path)
            (λ d. record d { lock = some (record { held = true; modified = now }) })
            (w.dirs ++ record { path = path; lock = none } ∷ []);
      catalog = register_run run path now w.catalog;
    })
unfolding find_dir register_run
opened run path now w fresh = record {
  dir = record { path = path; lock = some (record { held = true; modified = now }) };
  row = row;
  its_dir =
      find-update_where_self (has_path path)
        (λ d. record d { lock = some (record { held = true; modified = now }) }) (w.dirs ++ d ∷ [])
        d (λ y t. t) (find-append_miss (has_path path) w.dirs d fresh ((eq_iff path path).1 refl));
  its_lock = refl;
  its_row =
      find-append_miss (has_run_id run) rest row
        (find-delete_where_self (has_run_id run) w.catalog.runs) ((eq_iff run run).1 refl);
  one_path =
      All-append _ rest (row ∷ [])
        (All-imp (λ r. has_run_id run r ≡ false) _ rest (λ r f t. absurd (ground (arith, f, t)))
          (All-of_find-none (has_run_id run) rest
            (find-delete_where_self (has_run_id run) w.catalog.runs)))
        (λ _. refl, tt);
}
  where
    d : RunDir
    d = record { path = path; lock = none }

    row : RunRow
    row = record { run_id = run; path = path; created_at = now }

    rest : List RunRow
    rest = delete_where (has_run_id run) w.catalog.runs

new_store_locked-opened :
    (o : Opening) (run path : String) (now : ℤ) (w : Runs)
    → find_dir path w ≡ none
    → (new_store_locked o run path now w).0 ≡ true
    → IsOpen run path (new_store_locked o run path now w).1
unfolding new_store_locked set_lock
new_store_locked-opened o run path now w fresh ok = elim (Bool-cases o.creates) [
  | inr f ↦ absurd (ground (arith, rw (new_store_locked, f) at ok))
  | inl t ↦ elim (Bool-cases o.locks) [
    | inr f ↦ absurd (ground (arith, rw (new_store_locked, t, f) at ok))
    | inl l ↦ elim (Bool-cases (o.opens && o.prepares && o.registers)) [
      | inr f ↦ absurd (ground (arith, rw (new_store_locked, t, l, f) at ok))
      | inl r ↦ rw (new_store_locked, t, l, r) (opened run path now w fresh)
    ]
  ]
]

-- From the moment that a store is opened, its run has its row, its directory and its lock, whatever
-- other processes do and fail at, in any order: opening and closing other runs, dying, reclaiming
-- abandoned runs, sweeping expired directories and cleaning unused ones. The directory is new, and
-- no step is the run's own end.
pub take_steps-new_store_locked :
    (o : Opening) (run path : String) (now : ℤ) (w : Runs) (ss : List RunStep)
    → find_dir path w ≡ none
    → (new_store_locked o run path now w).0 ≡ true
    → All (IsOther run path) ss
    → IsOpen run path (take_steps ss (new_store_locked o run path now w).1)
take_steps-new_store_locked o run path now w ss fresh ok others =
    take_steps-IsOpen run path ss (new_store_locked o run path now w).1 others
      (new_store_locked-opened o run path now w fresh ok)

pub counted :
    (run path : String) (w : Runs) → IsOpen run path w → (count_runs w.catalog == 0) ≡ false
unfolding count_runs
counted run path w i = some_row w.catalog.runs i.row i.its_row
  where
    some_row :
        (rows : List RunRow) (r : RunRow)
        → find (has_run_id run) rows ≡ some r
        → (length rows == 0) ≡ false
    some_row [] r e = absurd (unfold find in ground (arith, e))
    some_row (x ∷ rows) r e = ground arith

-- Retained files never expire while a run is open: the files are as they were, whatever fails,
-- although the cache was idle when the pass began.
pub expire_retained_when_idle-IsOpen :
    (probe confirm : LockAttempt) (stats removes : FilePath → Bool) (age : ℤ) (own : String)
    (now : ℤ) (walk : Option (List Walked)) (w w' : Runs) (disk : Disk) (run path : String)
    → IsOpen run path w'
    → (expire_retained_when_idle probe confirm stats removes age own now walk w w' disk).2 ≡ disk
unfolding expire_retained_when_idle
expire_retained_when_idle-IsOpen probe confirm stats removes age own now walk w w' disk run path i =
    let busy = counted run path w' i in
    elim (Option-cases (cache_idle probe own now w).0) [
      | inl n ↦ rw (expire_retained_when_idle, n) refl
      | inr (idle, e) ↦ elim (Bool-cases idle) [
        | inr f ↦ rw (expire_retained_when_idle, e, f) refl
        | inl t ↦ elim (Option-cases (plan_old_retained_files age now walk)) [
          | inl n ↦ rw (expire_retained_when_idle, e, t, n) refl
          | inr (expired, p) ↦ elim (Bool-cases confirm.tries) [
            | inr f ↦ rw (expire_retained_when_idle, e, t, p, f) refl
            | inl a ↦ elim (Bool-cases confirm.free) [
              | inr f ↦ rw (expire_retained_when_idle, e, t, p, a, f) refl
              | inl b ↦ elim (Bool-cases confirm.counts) [
                | inr f ↦ rw (expire_retained_when_idle, e, t, p, a, b, f) refl
                | inl c ↦ rw (expire_retained_when_idle, e, t, p, a, b, c, busy) refl
              ]
            ]
          ]
        ]
      ]
    ]
