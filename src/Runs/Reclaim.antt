-- ===== src/Runs/Reclaim.antt =====
-- One run that cannot be reclaimed does not keep the others.
use gocachez.Prelude.{true, List, [], ◌∷◌, String, All, All-imp}
use gocachez.Prelude.Int.{ℤ}
use gocachez.Catalog.{RunRow, list_other_runs}
use gocachez.Runs.{
  Runs, find_dir, Reclaiming, try_reclaim_run, reclaim_each, cleanup_abandoned_runs,
}
use gocachez.Runs.Stranded.{
  IsGone, IsAbandoned, Reclaims, try_reclaim_run-IsGone, try_reclaim_run-kept, reclaim_each-kept,
  delete_run-IsGone, remove_dir-IsGone, make_lock-IsGone, remove_dir-IsAbandoned,
  make_lock-IsAbandoned,
}

module _ (faults : RunRow → Reclaiming) (now : ℤ) where
  reclaim_each-IsGone :
      (rows : List RunRow) (w : Runs)
      → All
          (λ row.
            Reclaims (faults row)
            → IsAbandoned row w
            → IsGone row (reclaim_each faults now rows w).1)
          rows
  unfolding reclaim_each
  reclaim_each-IsGone [] w = tt
  reclaim_each-IsGone (x ∷ rows) w =
      let w1 = (try_reclaim_run (faults x) x.run_id x.path now w).1 in
      (
        λ r a.
            reclaim_each-kept (IsGone x) (delete_run-IsGone x) (remove_dir-IsGone x)
              (make_lock-IsGone x) faults now rows w1
              (try_reclaim_run-IsGone (faults x) x now w r a),
        All-imp _ _ rows
            (λ row h r a. h r (
              try_reclaim_run-kept (IsAbandoned row) (λ id v b. unfold find_dir in b)
                (remove_dir-IsAbandoned row) (make_lock-IsAbandoned row) (faults x) x.run_id x.path
                now w a))
            (reclaim_each-IsGone rows w1),
      )

  -- Every other run whose lock nobody holds is reclaimed, its row and its directory, if nothing
  -- fails at the run itself, whatever fails at the runs listed before it and after it.
  pub cleanup_abandoned_runs-IsGone :
      (own : String) (w : Runs)
      → All
          (λ row.
            Reclaims (faults row)
            → IsAbandoned row w
            → IsGone row (cleanup_abandoned_runs true faults own now w).1)
          (list_other_runs own w.catalog)
  unfolding cleanup_abandoned_runs
  cleanup_abandoned_runs-IsGone own w = reclaim_each-IsGone (list_other_runs own w.catalog) w
