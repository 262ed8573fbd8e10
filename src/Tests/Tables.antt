-- ===== src/Tests/Tables.antt =====
-- The theorems on catalog.go at a catalog with one put.
use gocachez.Prelude.{
  ℕ, ◌≡◌, refl, ◌≢◌, none, some, List, [], ◌∷◌, same, find, suc, zero, true, false,
}
use gocachez.Prelude.Int.{pos}
use gocachez.Catalog.{
  Entry, init, found, tag_mismatch, lookup_entry, resolve, upsert_entry_row, upsert_output,
  update_where, check_tag, output_tag,
}
use gocachez.Catalog.Put.{sqlite, Attempt, record_put, upsert_entry}
use gocachez.Catalog.WellFormed.{IsWellFormed, init-IsWellFormed}
use gocachez.Catalog.Steps.{Step, put, drop_output, read_entry, apply, run}
use gocachez.Catalog.Invariant.{run-IsWellFormed}
use gocachez.Catalog.Soft.{lookup-run_put, lookup-ne-tag_mismatch}
use gocachez.Catalog.Retry.{Outcome, upsert_entry-Outcome}
use gocachez.Catalog.Reads.{lookup-put}
use gocachez.Refinement.View.{Abstract, view}
use gocachez.Refinement.Steps.{view-Abstract}

abbrev built : Entry
built = record {
  action_id = 1 ∷ 2 ∷ 3 ∷ 4 ∷ 5 ∷ [];
  output_id = 9 ∷ 8 ∷ 7 ∷ 6 ∷ 5 ∷ [];
  size = 12;
  compressed_size = 7;
  created_at = pos 100;
  accessed_at = pos 100;
}

-- Another action with an output that has the same tag.
abbrev other : Entry
other = record built { action_id = 1 ∷ 2 ∷ []; output_id = 9 ∷ 8 ∷ 7 ∷ 6 ∷ 4 ∷ [] }

-- The output is evicted and put again under a new id.
abbrev later : List Step
later =
    read_entry built.action_id (pos 101)
    ∷ put other
    ∷ put (record other { output_id = built.output_id; accessed_at = pos 110 })
    ∷ []

abbrev dropped : List Step
dropped = drop_output built.output_id ∷ put other ∷ []

-- A lookup in the tables after the steps.
answer_after :
    lookup_entry built.action_id (run later (record_put built init))
    ≡ found (record built { compressed_size = 0; accessed_at = pos 0 })
unfolding lookup_entry run resolve find apply record_put upsert_entry_row upsert_output same
    update_where check_tag output_tag
answer_after = refl

lookup-run_put_example : built.output_id ≡ built.output_id
lookup-run_put_example =
    lookup-run_put built later (record built { compressed_size = 0; accessed_at = pos 0 })
      init-IsWellFormed (tt, (λ e. absurd (cc), (λ e. absurd (cc), tt))) answer_after

run-IsWellFormed_example : IsWellFormed (run (put built ∷ dropped) init)
run-IsWellFormed_example = run-IsWellFormed (put built ∷ dropped) init-IsWellFormed

lookup-ne-tag_mismatch_example :
    lookup_entry built.action_id (run (put built ∷ dropped) init) ≢ tag_mismatch
lookup-ne-tag_mismatch_example =
    lookup-ne-tag_mismatch (put built ∷ dropped) built.action_id init-IsWellFormed

lookup-put_example :
    lookup_entry built.action_id (record_put built init)
    ≡ found (record built { compressed_size = 0; accessed_at = pos 0 })
lookup-put_example = lookup-put built init-IsWellFormed

-- The first commit is busy and takes effect all the same; the second attempt succeeds.
abbrev busy_once : ℕ → Attempt
busy_once (suc zero) = record {
  begin_error = none;
  output_error = none;
  entry_error = none;
  commit_error = some (sqlite 261);
  disputed = true;
}
busy_once _ = record {
  begin_error = none;
  output_error = none;
  entry_error = none;
  commit_error = none;
  disputed = false;
}

upsert_entry-Outcome_example : Outcome built init (upsert_entry busy_once built init)
upsert_entry-Outcome_example = upsert_entry-Outcome busy_once built init

view-Abstract_example :
    Abstract
      (drop_output built.output_id)
      (view (run (put built ∷ put other ∷ []) init))
      (view (apply (drop_output built.output_id) (run (put built ∷ put other ∷ []) init)))
view-Abstract_example =
    view-Abstract (drop_output built.output_id) (run (put built ∷ put other ∷ []) init)
      (run-IsWellFormed (put built ∷ put other ∷ []) init-IsWellFormed)
