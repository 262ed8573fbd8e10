-- ===== src/Runs/Ended.antt =====
-- What is left of a run that was closed.
use mathlib.Core.List.{Memᴰ}
use gocachez.Prelude.{
  ◌≡◌, ◌≢◌, ◌⊎◌, [], ◌∷◌, All, refl, ap, ◌∙◌, Bool, true, false, not, ◌&&◌, Option, none, some,
  List, String, find, arith, Bool-cases, inl, inr, if◌then◌else◌,
}
use gocachez.Prelude.Int.{ℤ, ◌≤ℤ◌}
use gocachez.Catalog.{has_run_id, delete_run}
use gocachez.Catalog.Tables.{find-update_where_self, find-delete_where_self}
use gocachez.Runs.{Runs, RunDir, LockFile, has_path, find_dir, set_lock, remove_dir, is_held}
use gocachez.Runs.Close.{
  WalkedPath, unreadable, not_regular, regular, Closing, prepare_path, walk_live_run,
  prepare_live_run_for_close, unregister_run, released, stamped, lock_of,
}
use gocachez.Runs.Expire.{Sweeping, live_run_expired_if_unlocked}
use gocachez.Runs.Held.{IsOpen}

module _ (path : String) (w : Runs) (d : RunDir) (e : find_dir path w ≡ some d) where
  set_lock-found :
      (l : Option LockFile) → find_dir path (set_lock path l w) ≡ some (record d { lock = l })
  unfolding find_dir set_lock
  set_lock-found l =
      find-update_where_self (has_path path) (λ x. record x { lock = l }) w.dirs d (λ y t. t) e

  lock_of-found : lock_of path w ≡ d.lock
  unfolding lock_of
  lock_of-found = rw (lock_of, e) refl

-- The walk took the path away: a file that was not retained or anything that is not a file, which
-- could be removed.
abbrev pub IsCleared : WalkedPath → Type 0
IsCleared p = (p ≡ not_regular true) ⊎ (p ≡ regular (some false) true)

-- The directory is there and its lock is free, and if it could be stamped no sweep with a cutoff up
-- to now takes it.
pub record Stays (f : Closing) (path : String) (now : ℤ) (w : Runs) : Type 0 where
  pub dir : RunDir
  pub its_dir : find_dir path w ≡ some dir
  pub free : is_held dir.lock ≡ false
  pub fresh :
      f.touches ≡ true
      → (s : Sweeping) (cutoff : ℤ) → cutoff ≤ℤ now
      → live_run_expired_if_unlocked s dir.lock cutoff ≢ some true

-- What becomes of the directory of a closed run: it stays where the walk left some path, and
-- where it cleared all of them it is removed, or its removal fails.
pub data DirEnd (f : Closing) (paths : List WalkedPath) (path : String) (now : ℤ) (w : Runs)
    : Type 0 where
  stays :
      (p : WalkedPath)
      → Memᴰ p paths
      → ¬ IsCleared p
      → Stays f path now w
      → DirEnd f paths path now w
  goes :
      All IsCleared paths
      → (f.removes ≡ false) ⊎ (find_dir path w ≡ none)
      → DirEnd f paths path now w

-- What closing leaves: the row is gone or could not be deleted, and the directory is as above.
pub record Ended (f : Closing) (paths : List WalkedPath) (run path : String) (now : ℤ) (w : Runs)
    : Type 0 where
  pub row : (f.deletes ≡ false) ⊎ (find (has_run_id run) w.catalog.runs ≡ none)
  pub dir : DirEnd f paths path now w

-- A walk keeps the directory exactly for a path that it did not clear.
prepare_path-IsCleared : (p : WalkedPath) → (prepare_path p).0 ≡ false → IsCleared p
unfolding prepare_path
prepare_path-IsCleared unreadable h = absurd (ground arith)
prepare_path-IsCleared (not_regular removes) h = inl (ground arith)
prepare_path-IsCleared (regular none removes) h = absurd (ground arith)
prepare_path-IsCleared (regular (some true) removes) h = absurd (ground arith)
prepare_path-IsCleared (regular (some false) removes) h = inr (ground arith)

prepare_path-left : (p : WalkedPath) → (prepare_path p).0 ≡ true → ¬ IsCleared p
unfolding prepare_path
prepare_path-left p h (inl e) = ground (arith, e)
prepare_path-left p h (inr e) = ground (arith, e)

walk-IsCleared : (ps : List WalkedPath) → (walk_live_run ps).0 ≡ false → All IsCleared ps
unfolding walk_live_run
walk-IsCleared [] h = tt
walk-IsCleared (p ∷ ps) h =
    (prepare_path-IsCleared p (ground arith), walk-IsCleared ps (ground arith))

walk-left :
    (ps : List WalkedPath)
    → (walk_live_run ps).0 ≡ true
    → (p : WalkedPath) × Memᴰ p ps × (¬ IsCleared p)
unfolding walk_live_run
walk-left [] h = absurd (ground arith)
walk-left (p ∷ ps) h = elim (Bool-cases (prepare_path p).0) [
  | inl t ↦ (p, Memᴰ.head refl, prepare_path-left p t)
  | inr f ↦ let (q, m, left) = walk-left ps (ground (arith, f)) in (q, Memᴰ.tail m, left)
]

released-free : (l : Option LockFile) → is_held (released l) ≡ false
unfolding released
released-free none = refl
released-free (some l) = refl

stamped-fresh :
    (now cutoff : ℤ) (l : Option LockFile) (s : Sweeping)
    → cutoff ≤ℤ now
    → live_run_expired_if_unlocked s (released (stamped now l)) cutoff ≢ some true
unfolding live_run_expired_if_unlocked released stamped
stamped-fresh now cutoff none s h e = ground arith
stamped-fresh now cutoff (some l) s h e = ground (arith, h, e)

-- The end of `unregisterRun`, whether the directory is stamped and whether it is removed.
module _ (path : String) (now : ℤ) (w : Runs) where
  abbrev marked : Bool → Runs
  marked b = if b then set_lock path (stamped now (lock_of path w)) w else w

  abbrev let_go : Bool → Runs
  let_go b = set_lock path (released (lock_of path (marked b))) (marked b)

  catalog-let_go :
      (b c : Bool) → (if c then remove_dir path (let_go b) else let_go b).catalog ≡ w.catalog
  unfolding set_lock remove_dir
  catalog-let_go true true = refl
  catalog-let_go true false = refl
  catalog-let_go false true = refl
  catalog-let_go false false = refl

  find_dir-let_go :
      (d : RunDir)
      → find_dir path w ≡ some d
      → (b : Bool)
      → find_dir path (let_go b)
        ≡ some (record d { lock = released (if b then stamped now d.lock else d.lock) })
  find_dir-let_go d e true =
      let l = stamped now (lock_of path w) in
      let there = set_lock-found path w d e l in
      set_lock-found path (marked true) (record d { lock = l }) there
        (released (lock_of path (marked true)))
      ∙ ap (λ x. some (record d { lock = released x }))
          (lock_of-found path (marked true) (record d { lock = l }) there
            ∙ ap (stamped now) (lock_of-found path w d e))
  find_dir-let_go d e false =
      set_lock-found path w d e (released (lock_of path w))
      ∙ ap (λ x. some (record d { lock = released x })) (lock_of-found path w d e)

module _ (f : Closing) (run path : String) (now : ℤ) (w : Runs) (paths : List WalkedPath) where
  abbrev forgotten : Runs
  forgotten = if f.deletes then record w { catalog = delete_run run w.catalog } else w

  still_there : (d : RunDir) → find_dir path w ≡ some d → find_dir path forgotten ≡ some d
  unfolding find_dir
  still_there d e = elim (Bool-cases f.deletes) [ inl t ↦ rw t e | inr g ↦ rw g e ]

  row_gone : f.deletes ≡ true → find (has_run_id run) forgotten.catalog.runs ≡ none
  unfolding delete_run
  row_gone t = rw t (find-delete_where_self (has_run_id run) w.catalog.runs)

  abbrev kept : Bool
  kept = (walk_live_run paths).0

  abbrev after : Runs
  after = (unregister_run f paths run path now w).1

  catalog-after : after.catalog ≡ forgotten.catalog
  unfolding unregister_run prepare_live_run_for_close
  catalog-after = catalog-let_go path now forgotten (kept && f.touches) (not kept && f.removes)

  dir_kept :
      (d : RunDir)
      → find_dir path w ≡ some d
      → kept ≡ true
      → find_dir path after
        ≡ some (record d { lock = released (if f.touches then stamped now d.lock else d.lock) })
  unfolding unregister_run prepare_live_run_for_close
  dir_kept d e k = rw k (find_dir-let_go path now forgotten d (still_there d e) f.touches)

  dir_gone : kept ≡ false → f.removes ≡ true → find_dir path after ≡ none
  unfolding unregister_run prepare_live_run_for_close find_dir remove_dir
  dir_gone k m = rw (k, m) (find-delete_where_self (has_path path) _)

  -- Closing a run never takes away a directory in which the walk left anything: a path that could
  -- not be read or whose export could not be taken, a retained file, or a path that could not be
  -- removed. Such a directory stays, its lock is let go, and where it could be stamped no sweep
  -- with a cutoff up to now takes it. Where the walk cleared every path the directory is gone, or
  -- could not be removed; and the row is gone, or could not be deleted, whatever else fails.
  pub unregister_run-Ended :
      IsOpen run path w → Ended f paths run path now (unregister_run f paths run path now w).1
  unregister_run-Ended o = record {
    row = elim (Bool-cases f.deletes) [
      | inl t ↦ inr (ap (λ c. find (has_run_id run) c.runs) catalog-after ∙ row_gone t)
      | inr g ↦ inl g
    ];
    dir = elim (Bool-cases kept) [
      | inl k ↦
          let (p, m, left) = walk-left paths k in
          stays p m left (record {
            dir = record o.dir {
              lock = released (if f.touches then stamped now o.dir.lock else o.dir.lock);
            };
            its_dir = dir_kept o.dir o.its_dir k;
            free = released-free (if f.touches then stamped now o.dir.lock else o.dir.lock);
            fresh = λ t s cutoff h. rw t (stamped-fresh now cutoff o.dir.lock s h);
          })
      | inr g ↦
          goes (walk-IsCleared paths g)
            (elim (Bool-cases f.removes) [ inl m ↦ inr (dir_gone g m) | inr m ↦ inl m ])
    ];
  }
