-- ===== src/Runs/Held.antt =====
-- A run that is open, and the changes of others that keep it so.
use text.Mathlib.Text.{◌==◌ as str_eq}
use text.Mathlib.TextEquality.{eq_iff}
use mathlib.Core.Option
use gocachez.Prelude.{
  ◌≡◌, ◌≢◌, refl, sym, ap, ◌∙◌, Bool, true, false, Option, none, some, String, find, All, arith,
  Bool-cases, inl, inr, if◌then◌else◌,
}
use gocachez.Prelude.Int.{ℤ}
use gocachez.Catalog.{RunRow, has_run_id, delete_run}
use gocachez.Catalog.Tables.{find-delete_where_ne, find-update_where, find_test, All-delete_where}
use gocachez.Runs.{
  Runs, RunDir, LockFile, has_path, find_dir, remove_dir, set_lock, make_lock, is_held,
}

pub str_ne : (s t : String) → s ≢ t → str_eq s t ≡ false
str_ne s t h = elim (Bool-cases (str_eq s t)) [ inr f ↦ f | inl e ↦ absurd (h ((eq_iff s t).0 e)) ]

-- The run has a row, its rows name its directory, and a process holds the lock of the directory.
pub record IsOpen (run path : String) (w : Runs) : Type 0 where
  pub dir : RunDir
  pub row : RunRow
  pub its_dir : find_dir path w ≡ some dir
  pub its_lock : is_held dir.lock ≡ true
  pub its_row : find (has_run_id run) w.catalog.runs ≡ some row
  pub one_path : All (λ r. has_run_id run r ≡ true → r.path ≡ path) w.catalog.runs

module _ (run path : String) where
  pub remove_dir-IsOpen :
      (p : String) (w : Runs) → p ≢ path → IsOpen run path w → IsOpen run path (remove_dir p w)
  unfolding remove_dir find_dir
  remove_dir-IsOpen p w h o = record {
    dir = o.dir;
    row = o.row;
    its_dir =
        find-delete_where_ne (has_path path) (has_path p) w.dirs
          (λ d t. str_ne d.path p (λ e. h (sym e ∙ (eq_iff d.path path).0 t)))
        ∙ o.its_dir;
    its_lock = o.its_lock;
    its_row = o.its_row;
    one_path = o.one_path;
  }

  pub set_lock-IsOpen :
      (p : String) (l : Option LockFile) (w : Runs)
      → p ≢ path
      → IsOpen run path w
      → IsOpen run path (set_lock p l w)
  unfolding set_lock find_dir
  set_lock-IsOpen p l w h o =
      let here : str_eq o.dir.path p ≡ false = str_ne o.dir.path p (λ e.
        h (
          sym e ∙ (eq_iff o.dir.path path).0 (find_test (has_path path) w.dirs o.dir o.its_dir))) in
      record {
        dir = o.dir;
        row = o.row;
        its_dir =
            find-update_where (has_path path) (has_path p) (λ d. record d { lock = l }) w.dirs
              (λ d. refl)
            ∙ ap (Option.map (λ d. if has_path p d then record d { lock = l } else d)) o.its_dir
            ∙ rw here refl;
        its_lock = o.its_lock;
        its_row = o.its_row;
        one_path = o.one_path;
      }

  pub delete_run-IsOpen :
      (id : String) (w : Runs)
      → id ≢ run
      → IsOpen run path w
      → IsOpen run path (record w { catalog = delete_run id w.catalog })
  unfolding delete_run
  delete_run-IsOpen id w h o = record {
    dir = o.dir;
    row = o.row;
    its_dir = unfold find_dir in o.its_dir;
    its_lock = o.its_lock;
    its_row =
        find-delete_where_ne (has_run_id run) (has_run_id id) w.catalog.runs
          (λ r t. str_ne r.run_id id (λ e. h (sym e ∙ (eq_iff r.run_id run).0 t)))
        ∙ o.its_row;
    one_path = All-delete_where _ (has_run_id id) w.catalog.runs o.one_path;
  }

  pub make_lock-IsOpen :
      (p : String) (now : ℤ) (l : Option LockFile) (w : Runs)
      → p ≢ path
      → IsOpen run path w
      → IsOpen run path (make_lock p now l w)
  unfolding make_lock
  make_lock-IsOpen p now none w h o = set_lock-IsOpen p _ w h o
  make_lock-IsOpen p now (some l) w h o = o

  -- A directory that is missing or whose lock is free is not the run's.
  abbrev pub held_in : Option RunDir → Bool
  held_in none = false
  held_in (some d) = is_held d.lock

  pub other_dir :
      (p : String) (w : Runs) (d : Option RunDir)
      → IsOpen run path w
      → find_dir p w ≡ d
      → held_in d ≡ false
      → p ≢ path
  other_dir p w d o e free this = absurd (
      ground
        (arith, o.its_lock, free, ap held_in (sym e ∙ ap (λ q. find_dir q w) this ∙ o.its_dir)))
