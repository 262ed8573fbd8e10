-- ===== src/Tests/Upkeep.antt =====
-- The theorems on maintenance at a catalog with two outputs.
use gocachez.Prelude.{
  List, ℕ, ◌+◌, ◌-◌, ◌^◌, ◌≡◌, refl, ap, ◌↔◌, none, some, [], ◌∷◌, true, false, same, select, find,
  not, arith, ◌&&◌, ltb, ◌/◌,
}
use gocachez.Prelude.Int.{ℤ, pos, ◌-ℤ◌, ◌+ℤ◌, ◌≤ℤ◌, ◌<ℤ◌, ltb_ℤ, pos_part}
use gocachez.Catalog.{OutputRow, Catalog, delete_where, has_output_id, evict_output}
use gocachez.Catalog.Listing.{compressed_size, sum_of}
use gocachez.Catalog.Tables.{Apart}
use gocachez.Catalog.WellFormed.{Unlike}
use gocachez.Maintenance.Due.{
  prune_due, prune_interval, prune_overshoot_divisor, mtime_interval, trim_cutoff,
  prune_due-false_iff, trim_cutoff_lem, trim_cutoff-overflow,
}
use gocachez.Maintenance.Evict.{
  PruneCandidate, Cache, Round, fine, evict_each, evict_to_max_size, is_chosen,
}
use gocachez.Maintenance.Rounds.{evict_to_max_size-select}
use gocachez.Maintenance.Unlink.{evict_to_max_size-blobs}
use gocachez.Maintenance.Budget.{Priced, Settled, evict_to_max_size-Settled}
use gocachez.Maintenance.Plan.{
  candidate_of, is_before, insert_candidate, order_candidates, eviction_candidates, is_seen,
  take_batch, plan_pages, plan_to_max_size,
}
use gocachez.Maintenance.Stop.{plan_to_max_size-ends}
use gocachez.Maintenance.Cover.{OtherOutput, CoversFrom, first_cursor, plan_to_max_size-Covers}

abbrev cold : OutputRow
cold = record {
  id = 1;
  output_id = 1 ∷ 1 ∷ [];
  size = 20;
  compressed_size = 10;
  accessed_at = pos 100;
  blob_type = none;
  blob_type_version = none;
  retained_type = none;
  retained_type_version = none;
}

abbrev warm : OutputRow
warm = record cold { id = 2; output_id = 2 ∷ 2 ∷ []; accessed_at = pos 200 }

abbrev full_catalog : Catalog
full_catalog = record { outputs = warm ∷ cold ∷ []; entries = []; runs = []; sequence = 2 }

abbrev full_cache : Cache
full_cache = record { catalog = full_catalog; blobs = λ _. some [] }

abbrev all_fine : ℕ → Round
all_fine _ = fine

-- The budget is 15 of 20 bytes: the plan takes the colder output, and eviction its row.
planned :
    plan_to_max_size (λ _. some full_catalog) 5 (pos 15) (pos 0) (some full_catalog)
    ≡ some (candidate_of cold ∷ [])
unfolding plan_to_max_size plan_pages eviction_candidates order_candidates insert_candidate
    is_before take_batch is_seen compressed_size sum_of select same ◌-ℤ◌
planned = refl

abbrev evicted_cache : Cache
evicted_cache = (evict_to_max_size all_fine true (pos 15) (candidate_of cold ∷ []) full_cache).1

evicted :
    evict_to_max_size all_fine true (pos 15) (candidate_of cold ∷ []) full_cache
    ≡ (some ((1 ∷ 1 ∷ []) ∷ []), evicted_cache)
unfolding evict_to_max_size evict_each evict_output delete_where compressed_size sum_of select same
    ◌-ℤ◌
evicted = refl

keys_differ : Apart Unlike full_catalog.outputs
keys_differ = ((((λ e. absurd (omega arith)), λ e. absurd (cc)), tt), (tt, tt))

plan_to_max_size-Covers_example :
    Apart OtherOutput (candidate_of cold ∷ [])
    × CoversFrom
        (λ _. some full_catalog)
        (pos (compressed_size full_catalog) -ℤ pos 15)
        0
        (first_cursor (pos 0))
        (candidate_of cold ∷ [])
plan_to_max_size-Covers_example =
    plan_to_max_size-Covers (λ _. some full_catalog) 5 (pos 15) (pos 0) full_catalog
      (candidate_of cold ∷ []) refl planned

evict_to_max_size-select_example :
    select (λ o. not (is_chosen (candidate_of cold ∷ []) o)) evicted_cache.catalog.outputs
    ≡ select (λ o. not (is_chosen (candidate_of cold ∷ []) o)) full_catalog.outputs
evict_to_max_size-select_example =
    evict_to_max_size-select all_fine true (pos 15) (candidate_of cold ∷ []) full_cache

warm_left : find (has_output_id warm.output_id) evicted_cache.catalog.outputs ≡ some warm
unfolding evict_to_max_size evict_each evict_output delete_where compressed_size sum_of select same
    ◌-ℤ◌ find
warm_left = refl

evict_to_max_size-blobs_example : evicted_cache.blobs warm.output_id ≡ some []
evict_to_max_size-blobs_example =
    evict_to_max_size-blobs all_fine true (pos 15) (candidate_of cold ∷ []) full_cache
      warm.output_id warm keys_differ warm_left

priced : Priced (candidate_of cold ∷ []) full_catalog.outputs
priced = ((λ _. refl, (λ _. refl, tt)), tt)

evict_to_max_size-Settled_example : Settled (pos 15) (candidate_of cold ∷ []) evicted_cache.catalog
evict_to_max_size-Settled_example =
    evict_to_max_size-Settled all_fine true (pos 15) (candidate_of cold ∷ []) full_cache
      ((1 ∷ 1 ∷ []) ∷ []) keys_differ priced (ap (λ r. r.0) evicted)

prune_due-false_iff_example : (prune_due (pos 1600) 100 (some (pos 5)) (pos 7) ≡ false) ↔ (
    (at : ℤ) × (some (pos 5) ≡ some at)
    × (at ≤ℤ pos 7)
    × ((pos 7 -ℤ at) <ℤ pos prune_interval)
    × ((ltb_ℤ (pos 0) (pos 1600) && ltb (pos_part (pos 1600) / prune_overshoot_divisor) 100)
        ≡ false))
prune_due-false_iff_example = prune_due-false_iff (pos 1600) 100 (some (pos 5)) (pos 7)

-- Five days.
trim_cutoff_lem_example :
    trim_cutoff (pos 432000000000000) (pos 500000000000000)
    ≡ (pos 500000000000000 -ℤ pos (432000000000000 + mtime_interval))
trim_cutoff_lem_example = trim_cutoff_lem 432000000000000 (pos 500000000000000) (omega arith)

-- 2562047 hours.
trim_cutoff-overflow_example :
    trim_cutoff (pos 9223369200000000000) (pos 0)
    ≡ (pos 0 +ℤ pos (2 ^ 64 - (9223369200000000000 + mtime_interval)))
trim_cutoff-overflow_example =
    trim_cutoff-overflow 9223369200000000000 (pos 0) (omega arith) (omega arith)

plan_to_max_size-ends_example :
    (cs : List PruneCandidate) × (plan_to_max_size
        (λ _. some full_catalog)
        3
        (pos 15)
        (pos 0)
        (some full_catalog)
      ≡ some cs)
plan_to_max_size-ends_example = plan_to_max_size-ends full_catalog 3 (pos 15) (pos 0) (omega arith)
