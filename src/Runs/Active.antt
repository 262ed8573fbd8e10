-- ===== src/Runs/Active.antt =====
-- Clean leaves a cache that is in use.
use gocachez.Prelude.{
  ℕ, ◌≡◌, refl, Bool, true, false, ◌&&◌, ◌||◌, Option, none, some, List, String, ltb, arith,
  Bool-cases, Option-cases, inl, inr, if◌then◌else◌,
}
use gocachez.Prelude.Int.{ℤ}
use gocachez.Catalog.{Catalog, count_runs}
use gocachez.Orphans.{Disk, plan_orphans, remove_orphans, keep_every_output}
use gocachez.Runs.{Runs, cleanup_abandoned_runs}
use gocachez.Runs.Clean.{
  Tidy, Cleaning, clean_locked, clean_rest, clean_catalog, remove_unused_live_dirs,
}
use gocachez.Runs.Held.{IsOpen}
use gocachez.Runs.Steps.{cleanup_abandoned_runs-IsOpen, remove_unused_dirs-IsOpen}
use gocachez.Runs.InUse.{counted}

-- The run is open, and the catalog is there.
abbrev pub InUse : String → String → Tidy → Type 0
InUse run path t = IsOpen run path t.runs × (t.has_catalog ≡ true)

module _ (run path : String) (c : Cleaning) (now : ℤ) where
  remove_unused_live_dirs-IsOpen :
      (listing : Option (List String)) (w : Runs)
      → IsOpen run path w
      → IsOpen run path (remove_unused_live_dirs c.dir_faults now listing w).1
  unfolding remove_unused_live_dirs
  remove_unused_live_dirs-IsOpen none w i = i
  remove_unused_live_dirs-IsOpen (some paths) w i =
      remove_unused_dirs-IsOpen run path c.dir_faults now paths false w i

  count_found :
      (t : Tidy) (n : ℕ)
      → IsOpen run path t.runs
      → (clean_catalog c now t).0 ≡ some n
      → ltb 0 n ≡ true
  unfolding clean_catalog
  count_found t n i e =
      let catalogs : ℕ → Option Catalog = λ n. if c.reads n then some t.runs.catalog else none in
      let busy = counted run path t.runs i in
      elim (Option-cases (plan_orphans catalogs c.scan false keep_every_output)) [
        | inl p ↦ absurd (ground (arith, rw (clean_catalog, p) at e))
        | inr (orphans, p) ↦
            let done =
              (remove_orphans catalogs (λ _ d. d) c.locks c.unlinking now orphans t.disk).0 in
            elim (Bool-cases (done && c.empties && c.counts)) [
              | inr f ↦ absurd (ground (arith, rw (clean_catalog, p, f) at e))
              | inl k ↦
                  let same_count : some (count_runs t.runs.catalog) ≡ some n =
                    rw (clean_catalog, p, k) at e in
                  ground (arith, busy, same_count)
            ]
      ]

  abbrev cache : Runs → Disk → Tidy
  cache w disk = record { runs = w; has_catalog = true; disk = disk }

  clean_rest-InUse :
      (active : Bool) (w : Runs) (disk : Disk)
      → IsOpen run path w
      → InUse run path (clean_rest c now active (cache w disk)).1
  unfolding clean_rest
  clean_rest-InUse active w disk i = elim (Option-cases (clean_catalog c now (cache w disk)).0) [
    | inl n ↦ rw (clean_rest, n) (i, refl)
    | inr (n, e) ↦
        let busy : (active || ltb 0 n) ≡ true = ground (arith, count_found (cache w disk) n i e) in
        rw (clean_rest, e, busy) (i, refl)
  ]

  -- Clean leaves a cache that is in use: where a run is open and there is a catalog, the run keeps
  -- its row, its directory and its lock, and the catalog stays, whatever fails.
  pub clean_locked-InUse :
      (w : Runs) (disk : Disk)
      → IsOpen run path w
      → InUse run path (clean_locked c now (cache w disk)).1
  unfolding clean_locked
  clean_locked-InUse w disk i =
      let w1 = cleanup_abandoned_runs c.listed c.faults "" now w in
      let i1 = cleanup_abandoned_runs-IsOpen run path c.listed c.faults "" now w i in
      let w2 = remove_unused_live_dirs c.dir_faults now c.listing w1.1 in
      let i2 = remove_unused_live_dirs-IsOpen c.listing w1.1 i1 in
      elim (Bool-cases c.opens) [
        | inr f ↦ rw (clean_locked, f) (i, refl)
        | inl o ↦ elim (Bool-cases w1.0) [
          | inr f ↦ rw (clean_locked, o, f) (i1, refl)
          | inl k ↦ elim (Option-cases w2.0) [
            | inl n ↦ rw (clean_locked, o, k, n) (i2, refl)
            | inr (active, e) ↦ rw (clean_locked, o, k, e) (clean_rest-InUse active w2.1 disk i2)
          ]
        ]
      ]
