-- ===== src/Runs/Steps.antt =====
-- The operations of other processes on the runs, in any order, and a run that stays open.
use text.Mathlib.TextEquality.{eq_iff}
use gocachez.Prelude.{
  ◌≡◌, ◌≢◌, refl, ap, ◌∙◌, Bool, true, false, ◌&&◌, Option, none, some, List, [], ◌∷◌, String, All,
  arith, Bool-cases, Option-cases, inl, inr,
}
use gocachez.Prelude.Int.{ℤ}
use gocachez.Catalog.{RunRow, has_run_id, list_other_runs}
use gocachez.Catalog.Tables.{All-delete_where}
use gocachez.Runs.{
  Runs, LockFile, find_dir, remove_dir, make_lock, is_held, Reclaiming, try_reclaim_run,
  reclaim_each, cleanup_abandoned_runs,
}
use gocachez.Runs.Expire.{Sweeping, live_run_expired_if_unlocked, sweep_dirs}
use gocachez.Runs.Clean.{remove_unused_dirs}
use gocachez.Runs.Held.{IsOpen, remove_dir-IsOpen, delete_run-IsOpen, make_lock-IsOpen, other_dir}

-- A lock that is held never lets a directory expire.
expired-free :
    (s : Sweeping) (l : Option LockFile) (cutoff : ℤ)
    → live_run_expired_if_unlocked s l cutoff ≡ some true
    → is_held l ≡ false
unfolding live_run_expired_if_unlocked
expired-free s none cutoff e = refl
expired-free s (some l) cutoff e = ground (arith, e)

module _ (run path : String) where
  try_reclaim_run-IsOpen :
      (r : Reclaiming) (id p : String) (now : ℤ) (w : Runs)
      → (id ≡ run → p ≡ path)
      → IsOpen run path w
      → IsOpen run path (try_reclaim_run r id p now w).1
  unfolding try_reclaim_run
  try_reclaim_run-IsOpen r id p now w same_run o = elim (Bool-cases r.stats) [
    | inr f ↦ rw (try_reclaim_run, f) o
    | inl s ↦ elim (Option-cases (find_dir p w)) [
      | inl n ↦
          let elsewhere = other_dir run path p w none o n refl in
          let stranger : id ≢ run = λ e. elsewhere (same_run e) in
          elim (Bool-cases r.deletes) [
            | inr f ↦ rw (try_reclaim_run, s, n, f) o
            | inl t ↦ rw (try_reclaim_run, s, n, t) (delete_run-IsOpen run path id w stranger o)
          ]
      | inr (d, e) ↦ elim (Bool-cases r.tries) [
        | inr f ↦ rw (try_reclaim_run, s, e, f) o
        | inl t ↦ elim (Bool-cases (is_held d.lock)) [
          | inl h ↦ rw (try_reclaim_run, s, e, t, h) o
          | inr free ↦
              let elsewhere = other_dir run path p w (some d) o e free in
              let stranger : id ≢ run = λ q. elsewhere (same_run q) in
              let o0 = make_lock-IsOpen run path p now d.lock w elsewhere o in
              let o1 = delete_run-IsOpen run path id (make_lock p now d.lock w) stranger o0 in
              elim (Bool-cases r.deletes) [
                | inr f ↦ rw (try_reclaim_run, s, e, t, free, f) o0
                | inl u ↦ elim (Bool-cases (r.unlocks && r.removes)) [
                  | inr f ↦ rw (try_reclaim_run, s, e, t, free, u, f) o1
                  | inl v ↦
                      rw (try_reclaim_run, s, e, t, free, u, v)
                        (remove_dir-IsOpen run path p _ elsewhere o1)
                ]
              ]
        ]
      ]
    ]
  ]

  reclaim_each-IsOpen :
      (faults : RunRow → Reclaiming) (now : ℤ) (rows : List RunRow) (w : Runs)
      → All (λ r. has_run_id run r ≡ true → r.path ≡ path) rows
      → IsOpen run path w
      → IsOpen run path (reclaim_each faults now rows w).1
  unfolding reclaim_each
  reclaim_each-IsOpen faults now [] w a o = o
  reclaim_each-IsOpen faults now (row ∷ rows) w a o =
      reclaim_each-IsOpen faults now rows (try_reclaim_run (faults row) row.run_id row.path now w).1
        a.1
        (try_reclaim_run-IsOpen (faults row) row.run_id row.path now w
          (λ e. a.0 ((eq_iff row.run_id run).1 e)) o)

  pub cleanup_abandoned_runs-IsOpen :
      (listed : Bool) (faults : RunRow → Reclaiming) (own : String) (now : ℤ) (w : Runs)
      → IsOpen run path w
      → IsOpen run path (cleanup_abandoned_runs listed faults own now w).1
  unfolding cleanup_abandoned_runs list_other_runs
  cleanup_abandoned_runs-IsOpen listed faults own now w o = elim (Bool-cases listed) [
    | inr f ↦ rw (cleanup_abandoned_runs, f) o
    | inl t ↦
        rw (cleanup_abandoned_runs, t)
          (reclaim_each-IsOpen faults now (list_other_runs own w.catalog) w
            (All-delete_where _ (has_run_id own) w.catalog.runs o.one_path) o)
  ]

  pub sweep_dirs-IsOpen :
      (faults : String → Sweeping) (cutoff : ℤ) (paths : List String) (w : Runs)
      → IsOpen run path w
      → IsOpen run path (sweep_dirs faults cutoff paths w).1
  unfolding sweep_dirs
  sweep_dirs-IsOpen faults cutoff [] w o = o
  sweep_dirs-IsOpen faults cutoff (p ∷ paths) w o = elim (Option-cases (find_dir p w)) [
    | inl n ↦ rw (sweep_dirs, n) (sweep_dirs-IsOpen faults cutoff paths w o)
    | inr (d, e) ↦ elim (Option-cases (live_run_expired_if_unlocked (faults p) d.lock cutoff)) [
      | inl n ↦ rw (sweep_dirs, e, n) o
      | inr (expired, q) ↦ elim (Bool-cases expired) [
        | inr f ↦ rw (sweep_dirs, e, q, f) (sweep_dirs-IsOpen faults cutoff paths w o)
        | inl t ↦ elim (Bool-cases (faults p).removes) [
          | inr f ↦ rw (sweep_dirs, e, q, t, f) o
          | inl r ↦
              rw (sweep_dirs, e, q, t, r)
                (sweep_dirs-IsOpen faults cutoff paths (remove_dir p w) (
                  remove_dir-IsOpen run path p w
                    (other_dir run path p w (some d) o e
                      (expired-free (faults p) d.lock cutoff (q ∙ ap some t)))
                    o))
        ]
      ]
    ]
  ]

  pub remove_unused_dirs-IsOpen :
      (faults : String → Reclaiming) (now : ℤ) (paths : List String) (active : Bool) (w : Runs)
      → IsOpen run path w
      → IsOpen run path (remove_unused_dirs faults now paths active w).1
  unfolding remove_unused_dirs
  remove_unused_dirs-IsOpen faults now [] active w o = o
  remove_unused_dirs-IsOpen faults now (p ∷ paths) active w o = elim (Option-cases (find_dir p w)) [
    | inl n ↦ rw (remove_unused_dirs, n) o
    | inr (d, e) ↦ elim (Bool-cases (faults p).tries) [
      | inr f ↦ rw (remove_unused_dirs, e, f) o
      | inl t ↦ elim (Bool-cases (is_held d.lock)) [
        | inl h ↦
            rw (remove_unused_dirs, e, t, h) (remove_unused_dirs-IsOpen faults now paths true w o)
        | inr free ↦
            let elsewhere = other_dir run path p w (some d) o e free in
            elim (Bool-cases ((faults p).unlocks && (faults p).removes)) [
              | inr f ↦
                  rw (remove_unused_dirs, e, t, free, f)
                    (make_lock-IsOpen run path p now d.lock w elsewhere o)
              | inl r ↦
                  rw (remove_unused_dirs, e, t, free, r)
                    (remove_unused_dirs-IsOpen faults now paths active (remove_dir p w)
                      (remove_dir-IsOpen run path p w elsewhere o))
            ]
      ]
    ]
  ]
