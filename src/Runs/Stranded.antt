-- ===== src/Runs/Stranded.antt =====
-- What the parts of a reclaim do to a run that is abandoned or gone.
use text.Mathlib.Text.{◌==◌ as str_eq}
use text.Mathlib.TextEquality.{eq_iff}
use gocachez.Prelude.{
  ◌≡◌, ◌≢◌, refl, sym, ap, ◌∙◌, Bool, true, false, ◌&&◌, Option, none, some, List, [], ◌∷◌, String,
  find, arith, Bool-cases, Option-cases, inl, inr, if◌then◌else◌,
}
use gocachez.Prelude.Int.{ℤ}
use gocachez.Catalog.{RunRow, has_run_id, delete_where, delete_run}
use gocachez.Catalog.Tables.{
  find-delete_where_self, find-delete_where_ne, find-update_where, All-delete_where,
  All-of_find-none, find-none_of_All,
}
use mathlib.Core.Option
use gocachez.Runs.Held.{str_ne}
use gocachez.Runs.{
  Runs, RunDir, LockFile, has_path, find_dir, set_lock, make_lock, remove_dir, is_held, Reclaiming,
  try_reclaim_run, reclaim_each,
}

-- The run has no row and no directory any more.
abbrev pub IsGone : RunRow → Runs → Type 0
IsGone row w = (find (has_run_id row.run_id) w.catalog.runs ≡ none) × (find_dir row.path w ≡ none)

-- Nobody holds the lock of the run's directory.
abbrev pub held_of : Option RunDir → Bool
held_of none = false
held_of (some d) = is_held d.lock

abbrev pub IsAbandoned : RunRow → Runs → Type 0
IsAbandoned row w = held_of (find_dir row.path w) ≡ false

-- Nothing fails when the run is reclaimed.
abbrev pub Reclaims : Reclaiming → Type 0
Reclaims r =
    (r.stats ≡ true)
    × (r.tries ≡ true)
    × (r.deletes ≡ true)
    × (r.unlocks ≡ true)
    × (r.removes ≡ true)

pub try_reclaim_run-IsGone :
    (r : Reclaiming) (row : RunRow) (now : ℤ) (w : Runs)
    → Reclaims r
    → IsAbandoned row w
    → IsGone row (try_reclaim_run r row.run_id row.path now w).1
unfolding try_reclaim_run delete_run remove_dir find_dir
try_reclaim_run-IsGone r row now w (s, t, d, u, m) free =
    elim (Option-cases (find_dir row.path w)) [
      | inl n ↦
          rw (try_reclaim_run, s, n, d)
            (find-delete_where_self (has_run_id row.run_id) w.catalog.runs, n)
      | inr (x, e) ↦
          let loose : is_held x.lock ≡ false = rw e at free in
          let w0 = make_lock row.path now x.lock w in
          rw (try_reclaim_run, s, e, t, loose, d, u, m)
            (
              find-delete_where_self (has_run_id row.run_id) w0.catalog.runs,
              find-delete_where_self (has_path row.path) w0.dirs,
            )
    ]

-- What no part of a reclaim undoes holds afterwards.
module _ (Q : Runs → Type 0)
    (deleted : (id : String) (w : Runs) → Q w → Q (record w { catalog = delete_run id w.catalog }))
    (removed : (p : String) (w : Runs) → Q w → Q (remove_dir p w))
    (locked : (p : String) (now : ℤ) (l : Option LockFile) (w : Runs)
      → Q w
      → Q (make_lock p now l w)) where
  pub try_reclaim_run-kept :
      (r : Reclaiming) (id p : String) (now : ℤ) (w : Runs)
      → Q w
      → Q (try_reclaim_run r id p now w).1
  unfolding try_reclaim_run
  try_reclaim_run-kept r id p now w q = elim (Bool-cases r.stats) [
    | inr f ↦ rw (try_reclaim_run, f) q
    | inl s ↦ elim (Option-cases (find_dir p w)) [
      | inl n ↦ elim (Bool-cases r.deletes) [
        | inr f ↦ rw (try_reclaim_run, s, n, f) q
        | inl t ↦ rw (try_reclaim_run, s, n, t) (deleted id w q)
      ]
      | inr (d, e) ↦ elim (Bool-cases r.tries) [
        | inr f ↦ rw (try_reclaim_run, s, e, f) q
        | inl t ↦ elim (Bool-cases (is_held d.lock)) [
          | inl h ↦ rw (try_reclaim_run, s, e, t, h) q
          | inr free ↦
              let q0 = locked p now d.lock w q in
              let q1 = deleted id (make_lock p now d.lock w) q0 in
              elim (Bool-cases r.deletes) [
                | inr f ↦ rw (try_reclaim_run, s, e, t, free, f) q0
                | inl u ↦ elim (Bool-cases (r.unlocks && r.removes)) [
                  | inr f ↦ rw (try_reclaim_run, s, e, t, free, u, f) q1
                  | inl v ↦ rw (try_reclaim_run, s, e, t, free, u, v) (removed p _ q1)
                ]
              ]
        ]
      ]
    ]
  ]

  pub reclaim_each-kept :
      (faults : RunRow → Reclaiming) (now : ℤ) (rows : List RunRow) (w : Runs)
      → Q w
      → Q (reclaim_each faults now rows w).1
  unfolding reclaim_each
  reclaim_each-kept faults now [] w q = q
  reclaim_each-kept faults now (x ∷ rows) w q =
      reclaim_each-kept faults now rows (try_reclaim_run (faults x) x.run_id x.path now w).1
        (try_reclaim_run-kept (faults x) x.run_id x.path now w q)

module _ (row : RunRow) where
  pub delete_run-IsGone :
      (id : String) (w : Runs)
      → IsGone row w
      → IsGone row (record w { catalog = delete_run id w.catalog })
  unfolding delete_run find_dir
  delete_run-IsGone id w (a, b) = (
    find-none_of_All (has_run_id row.run_id) (delete_where (has_run_id id) w.catalog.runs) (
        All-delete_where _ (has_run_id id) w.catalog.runs
          (All-of_find-none (has_run_id row.run_id) w.catalog.runs a)),
    b,
  )

  pub remove_dir-IsGone : (p : String) (w : Runs) → IsGone row w → IsGone row (remove_dir p w)
  unfolding remove_dir find_dir
  remove_dir-IsGone p w (a, b) = (
    a,
    find-none_of_All (has_path row.path) (delete_where (has_path p) w.dirs)
        (All-delete_where _ (has_path p) w.dirs (All-of_find-none (has_path row.path) w.dirs b)),
  )

  pub make_lock-IsGone :
      (p : String) (now : ℤ) (l : Option LockFile) (w : Runs)
      → IsGone row w
      → IsGone row (make_lock p now l w)
  unfolding make_lock set_lock find_dir
  make_lock-IsGone p now (some l) w g = g
  make_lock-IsGone p now none w (a, b) = (
    a,
    find-update_where (has_path row.path) (has_path p)
          (λ d. record d { lock = some (record { held = false; modified = now }) }) w.dirs
          (λ d. refl)
        ∙ ap
            (Option.map (λ d.
              if has_path p d
              then record d { lock = some (record { held = false; modified = now }) }
              else d))
            b,
  )

  pub remove_dir-IsAbandoned :
      (p : String) (w : Runs) → IsAbandoned row w → IsAbandoned row (remove_dir p w)
  unfolding remove_dir find_dir
  remove_dir-IsAbandoned p w a = elim (Bool-cases (str_eq p row.path)) [
    | inl t ↦
        ap (λ (q : String). held_of (find (has_path row.path) (delete_where (has_path q) w.dirs)))
          ((eq_iff p row.path).0 t)
        ∙ ap held_of (find-delete_where_self (has_path row.path) w.dirs)
    | inr f ↦
        ap held_of (
          find-delete_where_ne (has_path row.path) (has_path p) w.dirs
            (λ d t. str_ne d.path p (λ e. different p f (sym e ∙ (eq_iff d.path row.path).0 t))))
        ∙ a
  ]
    where
      different : (p : String) → str_eq p row.path ≡ false → p ≢ row.path
      different p f e = absurd (ground (arith, f, (eq_iff p row.path).1 e))

  pub make_lock-IsAbandoned :
      (p : String) (now : ℤ) (l : Option LockFile) (w : Runs)
      → IsAbandoned row w
      → IsAbandoned row (make_lock p now l w)
  unfolding make_lock set_lock find_dir
  make_lock-IsAbandoned p now (some l) w a = a
  make_lock-IsAbandoned p now none w a =
      let new : LockFile = record { held = false; modified = now } in
      ap held_of (
        find-update_where (has_path row.path) (has_path p) (λ d. record d { lock = some new })
          w.dirs (λ d. refl))
      ∙ elim (Option-cases (find (has_path row.path) w.dirs)) [
        | inl n ↦ rw n refl
        | inr (d, e) ↦
            let free : is_held d.lock ≡ false = rw e at a in
            elim (Bool-cases (has_path p d)) [ inl t ↦ rw (e, t) refl | inr f ↦ rw (e, f) free ]
      ]
