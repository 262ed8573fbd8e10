-- ===== src/Maintenance/Plan.antt =====
-- `planToMaxSize` of cache.go and `evictionCandidates` of catalog.go. The pages are separate reads,
-- so each sees the catalog of its own time.
use gocachez.Prelude.{
  ℕ, zero, suc, ◌+◌, Bool, true, false, ◌&&◌, ◌||◌, Option, none, some, List, [], ◌∷◌, ◌++◌, map,
  take, same, select, if◌then◌else◌,
}
use gocachez.Prelude.Int.{ℤ, pos, negsuc, leb_ℤ, ltb_ℤ, eqb_ℤ, ◌-ℤ◌}
use gocachez.Catalog.{Key, OutputRow, Catalog}
use gocachez.Catalog.Listing.{compressed_size}
use gocachez.Maintenance.Evict.{PruneCandidate}

-- `evictionCursor`, a key of the index on `outputs`.
pub record EvictionCursor : Type 0 where
  pub accessed_at : ℤ
  pub size : ℤ
  pub id : ℤ

abbrev pub cursor_of : PruneCandidate → EvictionCursor
cursor_of c = record { accessed_at = c.accessed_at; size = pos c.size; id = pos c.id }

-- The order of the index.
unfoldable pub is_before : EvictionCursor → EvictionCursor → Bool
is_before a b =
    ltb_ℤ a.accessed_at b.accessed_at
    || (eqb_ℤ a.accessed_at b.accessed_at
        && (ltb_ℤ a.size b.size || (eqb_ℤ a.size b.size && ltb_ℤ a.id b.id)))

abbrev pub candidate_of : OutputRow → PruneCandidate
candidate_of o = record {
  output_id = o.output_id;
  id = o.id;
  size = o.compressed_size;
  accessed_at = o.accessed_at;
}

-- ORDER BY accessed_at, compressed_size, id
unfoldable pub insert_candidate : PruneCandidate → List PruneCandidate → List PruneCandidate
insert_candidate c [] = c ∷ []
insert_candidate c (d ∷ ds) =
    if is_before (cursor_of d) (cursor_of c) then d ∷ insert_candidate c ds else c ∷ d ∷ ds

unfoldable pub order_candidates : List PruneCandidate → List PruneCandidate
order_candidates [] = []
order_candidates (c ∷ cs) = insert_candidate c (order_candidates cs)

-- `evictionCandidates`
unfoldable pub eviction_candidates : Catalog → EvictionCursor → ℕ → List PruneCandidate
eviction_candidates c after limit =
    take limit
      (order_candidates (select (λ d. is_before after (cursor_of d)) (map candidate_of c.outputs)))

abbrev pub eviction_sample_size : ℕ
eviction_sample_size = 2048

unfoldable pub is_seen : Key → List PruneCandidate → Bool
is_seen key [] = false
is_seen key (c ∷ cs) = same c.output_id key || is_seen key cs

-- The inner loop: the candidates so far, the latest last, and what is still needed. It ends when
-- nothing is needed any more.
unfoldable pub take_batch : List PruneCandidate → List PruneCandidate → ℤ → List PruneCandidate × ℤ
take_batch [] chosen need = (chosen, need)
take_batch (c ∷ cs) chosen need = elim (is_seen c.output_id chosen) [
  | true ↦ take_batch cs chosen need
  | false ↦ elim (leb_ℤ (need -ℤ pos c.size) (pos 0)) [
    | true ↦ (chosen ++ c ∷ [], need -ℤ pos c.size)
    | false ↦ take_batch cs (chosen ++ c ∷ []) (need -ℤ pos c.size)
  ]
]

abbrev pub last_of : PruneCandidate → List PruneCandidate → PruneCandidate
last_of c [] = c
last_of c (d ∷ ds) = last_of d ds

-- The outer loop. `pages` is the catalog at each read, none a read that fails. Out of fuel it
-- returns none, as at a failure.
unfoldable pub plan_pages :
    (ℕ → Option Catalog)
    → ℕ
    → ℕ
    → EvictionCursor
    → List PruneCandidate
    → ℤ
    → Option (List PruneCandidate)
plan_pages pages zero n cursor chosen need = none
plan_pages pages (suc fuel) n cursor chosen need = elim (leb_ℤ need (pos 0)) [
  | true ↦ some chosen
  | false ↦ elim (pages n) [
    | none ↦ none
    | some c ↦ elim (eviction_candidates c cursor eviction_sample_size) [
      | [] ↦ some chosen
      | d ∷ ds ↦
          let (chosen', need') = take_batch (d ∷ ds) chosen need in
          plan_pages pages fuel (n + 1) (cursor_of (last_of d ds)) chosen' need'
    ]
  ]
]

-- `planToMaxSize`, whose first read is the total.
unfoldable pub plan_to_max_size :
    (ℕ → Option Catalog) → ℕ → ℤ → ℤ → Option Catalog → Option (List PruneCandidate)
plan_to_max_size pages fuel max_size entry_cutoff sized =
    if leb_ℤ max_size (pos 0) then some [] else elim sized [
      | none ↦ none
      | some c ↦
          let total = pos (compressed_size c) in
          if leb_ℤ total max_size
          then some []
          else plan_pages pages fuel 0
              (record { accessed_at = entry_cutoff; size = negsuc 0; id = negsuc 0 }) []
              (total -ℤ max_size)
    ]
