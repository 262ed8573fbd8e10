-- ===== src/Maintenance/Cover.antt =====
-- What a plan of evictions covers.
use gocachez.Prelude.{
  ℕ, zero, suc, ◌+◌, ◌≡◌, refl, sym, ◌∙◌, ◌≢◌, ◌⊎◌, true, false, Option, some, List, [], ◌∷◌, ◌++◌,
  same_iff, arith, Bool-cases, Option-cases, inl, inr, All, All-imp,
}
use gocachez.Prelude.Int.{ℤ, pos, negsuc, leb_ℤ, ◌-ℤ◌, ◌+ℤ◌, ◌≤ℤ◌, int_laws}
use gocachez.Catalog.{Key, Catalog}
use gocachez.Catalog.Listing.{compressed_size, sum_of}
use gocachez.Catalog.Tables.{Apart, Apart-append}
use gocachez.Maintenance.Chosen.{take_batch-is_seen, take_batch-All}
use gocachez.Maintenance.Evict.{PruneCandidate}
use gocachez.Maintenance.Plan.{
  EvictionCursor, cursor_of, eviction_candidates, eviction_sample_size, is_seen, take_batch,
  last_of, plan_pages, plan_to_max_size,
}

abbrev pub OtherOutput : PruneCandidate → PruneCandidate → Type 0
OtherOutput c d = c.output_id ≢ d.output_id

abbrev pub sizes : List PruneCandidate → ℕ
sizes = sum_of (λ c. c.size)

is_seen-false :
    (c : PruneCandidate) (ds : List PruneCandidate)
    → is_seen c.output_id ds ≡ false
    → All (λ d. OtherOutput d c) ds
unfolding is_seen
is_seen-false c [] f = tt
is_seen-false c (d ∷ ds) f =
    (λ e. ground (arith, same_iff d.output_id c.output_id), is_seen-false c ds (ground arith))

sizes-append :
    (cs : List PruneCandidate) (c : PruneCandidate) → sizes (cs ++ c ∷ []) ≡ sizes cs + c.size
unfolding sum_of
sizes-append [] c = omega arith
sizes-append (d ∷ cs) c = omega (arith, sizes-append cs c)

-- The candidates are of different outputs, and what is needed and what was chosen add up to `sum`.
record Balanced (sum : ℤ) (r : List PruneCandidate × ℤ) : Type 0 where
  others : Apart OtherOutput r.0
  balance : (r.1 +ℤ pos (sizes r.0)) ≡ sum

add-Balanced :
    (c : PruneCandidate) (chosen : List PruneCandidate) (need sum : ℤ)
    → is_seen c.output_id chosen ≡ false
    → Balanced sum (chosen, need)
    → Balanced sum (chosen ++ c ∷ [], need -ℤ pos c.size)
add-Balanced c chosen need sum new b = record {
  others = Apart-append OtherOutput chosen c b.others (is_seen-false c chosen new);
  balance = rw (sizes-append chosen c) (shift need (sizes chosen) c.size ∙ b.balance);
}
  where
    shift : (x : ℤ) (m n : ℕ) → ((x -ℤ pos n) +ℤ pos (m + n)) ≡ (x +ℤ pos m)
    shift x m n = grind int_laws

take_batch-Balanced :
    (cs chosen : List PruneCandidate) (need sum : ℤ)
    → Balanced sum (chosen, need)
    → Balanced sum (take_batch cs chosen need)
unfolding take_batch
take_batch-Balanced [] chosen need sum b = b
take_batch-Balanced (c ∷ cs) chosen need sum b = elim (Bool-cases (is_seen c.output_id chosen)) [
  | inl t ↦ rw (t, take_batch) (take_batch-Balanced cs chosen need sum b)
  | inr f ↦
      let b' = add-Balanced c chosen need sum f b in
      elim (Bool-cases (leb_ℤ (need -ℤ pos c.size) (pos 0))) [
        | inl t ↦ rw (f, t, take_batch) b'
        | inr g ↦
            rw (f, g, take_batch)
              (take_batch-Balanced cs (chosen ++ c ∷ []) (need -ℤ pos c.size) sum b')
      ]
]

-- The pages that a plan reads from the n-th on, each behind the last candidate of the one before:
-- the output of every candidate of a page is in the plan, up to a page that is empty.
pub data Exhausts (pages : ℕ → Option Catalog) (cs : List PruneCandidate)
    : ℕ → EvictionCursor → Type 0 where
  dry :
      {n : ℕ} {cursor : EvictionCursor} (c : Catalog)
      → pages n ≡ some c
      → eviction_candidates c cursor eviction_sample_size ≡ []
      → Exhausts pages cs n cursor
  page :
      {n : ℕ} {cursor : EvictionCursor} (c : Catalog) (d : PruneCandidate)
      (ds : List PruneCandidate)
      → pages n ≡ some c
      → eviction_candidates c cursor eviction_sample_size ≡ d ∷ ds
      → All (λ x. is_seen x.output_id cs ≡ true) (d ∷ ds)
      → Exhausts pages cs (n + 1) (cursor_of (last_of d ds))
      → Exhausts pages cs n cursor

-- Where the reads of a plan begin.
abbrev pub first_cursor : ℤ → EvictionCursor
first_cursor entry_cutoff = record { accessed_at = entry_cutoff; size = negsuc 0; id = negsuc 0 }

-- The plan covers an overshoot, or has every candidate of the pages from the n-th on, of which the
-- last was empty.
abbrev pub CoversFrom : (ℕ → Option Catalog) → ℤ → ℕ → EvictionCursor → List PruneCandidate → Type 0
CoversFrom pages overshoot n cursor cs = (overshoot ≤ℤ pos (sizes cs)) ⊎ Exhausts pages cs n cursor

pub page_cases :
    (page : List PruneCandidate)
    → (page ≡ []) ⊎ ((d : PruneCandidate) × (ds : List PruneCandidate) × (page ≡ d ∷ ds))
page_cases [] = inl refl
page_cases (d ∷ ds) = inr (d, ds, refl)

within : (x : ℤ) (m : ℕ) (s : ℤ) → leb_ℤ x (pos 0) ≡ true → (x +ℤ pos m) ≡ s → s ≤ℤ pos m
unfolding ◌+ℤ◌
within x m s t e = ground (arith, sym e)

no_overshoot : (x y : ℤ) → leb_ℤ x y ≡ true → (x -ℤ y) ≤ℤ pos 0
unfolding ◌-ℤ◌
no_overshoot x y t = ground arith

plus_zero : (x : ℤ) → (x +ℤ pos 0) ≡ x
plus_zero x = grind int_laws

plan_pages-is_seen :
    (pages : ℕ → Option Catalog) (fuel n : ℕ) (cursor : EvictionCursor)
    (chosen cs : List PruneCandidate) (need : ℤ) (key : Key)
    → is_seen key chosen ≡ true
    → plan_pages pages fuel n cursor chosen need ≡ some cs
    → is_seen key cs ≡ true
unfolding plan_pages
plan_pages-is_seen pages zero n cursor chosen cs need key s h = absurd (ground arith)
plan_pages-is_seen pages (suc fuel) n cursor chosen cs need key s h =
    elim (Bool-cases (leb_ℤ need (pos 0))) [
      | inl t ↦ let end : chosen ≡ cs = ground (arith, t) in rw end at s
      | inr f ↦ elim (Option-cases (pages n)) [
        | inl e ↦ absurd (ground (arith, f, e))
        | inr (c, e) ↦ elim (page_cases (eviction_candidates c cursor eviction_sample_size)) [
          | inl q ↦ let end : chosen ≡ cs = ground (arith, f, e, q) in rw end at s
          | inr (d, ds, q) ↦
              let r = take_batch (d ∷ ds) chosen need in
              plan_pages-is_seen pages fuel (n + 1) (cursor_of (last_of d ds)) r.0 cs r.1 key
                (take_batch-is_seen key (d ∷ ds) chosen need s) (rw (f, e, q, plan_pages) at h)
        ]
      ]
    ]

settled :
    (pages : ℕ → Option Catalog) (fuel n : ℕ) (cursor : EvictionCursor)
    (chosen cs : List PruneCandidate) (need overshoot : ℤ)
    → Balanced overshoot (chosen, need)
    → leb_ℤ need (pos 0) ≡ true
    → plan_pages pages fuel n cursor chosen need ≡ some cs
    → overshoot ≤ℤ pos (sizes cs)
unfolding plan_pages
settled pages zero n cursor chosen cs need overshoot b t h = absurd (ground arith)
settled pages (suc fuel) n cursor chosen cs need overshoot b t h =
    let end : chosen ≡ cs = ground (arith, t) in
    rw (sym end) (within need (sizes chosen) overshoot t b.balance)

plan_pages-Covers :
    (pages : ℕ → Option Catalog) (fuel n : ℕ) (cursor : EvictionCursor)
    (chosen cs : List PruneCandidate) (need overshoot : ℤ)
    → Balanced overshoot (chosen, need)
    → plan_pages pages fuel n cursor chosen need ≡ some cs
    → Apart OtherOutput cs × CoversFrom pages overshoot n cursor cs
unfolding plan_pages
plan_pages-Covers pages zero n cursor chosen cs need overshoot b h = absurd (ground arith)
plan_pages-Covers pages (suc fuel) n cursor chosen cs need overshoot b h =
    elim (Bool-cases (leb_ℤ need (pos 0))) [
      | inl t ↦
          let end : chosen ≡ cs = ground (arith, t) in
          rw (sym end) (b.others, inl (within need (sizes chosen) overshoot t b.balance))
      | inr f ↦ elim (Option-cases (pages n)) [
        | inl e ↦ absurd (ground (arith, f, e))
        | inr (c, e) ↦ elim (page_cases (eviction_candidates c cursor eviction_sample_size)) [
          | inl q ↦
              let end : chosen ≡ cs = ground (arith, f, e, q) in
              rw (sym end) (b.others, inr (dry c e q))
          | inr (d, ds, q) ↦
              let r = take_batch (d ∷ ds) chosen need in
              let next : EvictionCursor = cursor_of (last_of d ds) in
              let further = rw (f, e, q, plan_pages) at h in
              let b' = take_batch-Balanced (d ∷ ds) chosen need overshoot b in
              let (others, covers) =
                plan_pages-Covers pages fuel (n + 1) next r.0 cs r.1 overshoot b' further in
              (
                others,
                elim covers [
                  | inl enough ↦ inl enough
                  | inr x ↦ elim (Bool-cases (leb_ℤ r.1 (pos 0))) [
                    | inl t ↦
                        inl (settled pages fuel (n + 1) next r.0 cs r.1 overshoot b' t further)
                    | inr g ↦ inr (
                        page c d ds e q
                          (All-imp (λ y. is_seen y.output_id r.0 ≡ true) _ (d ∷ ds)
                            (λ y s.
                              plan_pages-is_seen pages fuel (n + 1) next r.0 cs r.1 y.output_id s
                                further)
                            (take_batch-All (d ∷ ds) chosen need r refl g))
                          x)
                  ]
                ],
              )
        ]
      ]
    ]

-- A plan names every output once, although the pages that it reads change between the reads; and
-- unless the sizes of its candidates add up to what the cache is over budget, the plan has the
-- output of every candidate of every page that it read, each page read from the last candidate of
-- the one before on, the first from the cutoff of the entries on, and the last one empty.
pub plan_to_max_size-Covers :
    (pages : ℕ → Option Catalog) (fuel : ℕ) (max_size entry_cutoff : ℤ) (c : Catalog)
    (cs : List PruneCandidate)
    → leb_ℤ max_size (pos 0) ≡ false
    → plan_to_max_size pages fuel max_size entry_cutoff (some c) ≡ some cs
    → Apart OtherOutput cs
      × CoversFrom pages (pos (compressed_size c) -ℤ max_size) 0 (first_cursor entry_cutoff) cs
unfolding plan_to_max_size sum_of
plan_to_max_size-Covers pages fuel max_size entry_cutoff c cs on h =
    elim (Bool-cases (leb_ℤ (pos (compressed_size c)) max_size)) [
      | inl t ↦
          let end : [] ≡ cs = ground (arith, on, t) in
          rw (sym end) (tt, inl (no_overshoot (pos (compressed_size c)) max_size t))
      | inr f ↦
          plan_pages-Covers pages fuel 0 _ [] cs _ _ (record { others = tt; balance = plus_zero _ })
            (rw (on, f, plan_to_max_size) at h)
    ]
