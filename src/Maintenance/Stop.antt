-- ===== src/Maintenance/Stop.antt =====
-- How far a page of `planToMaxSize` moves the cursor, and the fuel of a plan.
use gocachez.Prelude.{
  ℕ, zero, suc, ◌+◌, ◌≤◌, ◌<◌, ◌≡◌, refl, Bool, true, false, not, ◌&&◌, ◌||◌, some, List, [], ◌∷◌,
  map, take, select, arith, Bool-cases, inl, inr, length, All, All-select,
}
use gocachez.Prelude.Int.{ℤ, pos, negsuc, leb_ℤ, ltb_ℤ, eqb_ℤ, ◌-ℤ◌}
use gocachez.Catalog.{Catalog}
use gocachez.Catalog.Listing.{compressed_size}
use gocachez.Maintenance.Evict.{PruneCandidate}
use gocachez.Maintenance.Plan.{
  EvictionCursor, cursor_of, is_before, candidate_of, insert_candidate, order_candidates,
  eviction_candidates, eviction_sample_size, take_batch, last_of, plan_pages, plan_to_max_size,
}
use gocachez.Maintenance.Cover.{page_cases}

is_before-irreflexive : (a : EvictionCursor) → is_before a a ≡ false
unfolding is_before
is_before-irreflexive a = ground arith

-- One level of the lexicographic order.
lexicographic :
    (x y z : ℤ) (p q r : Bool)
    → (ltb_ℤ x y || (eqb_ℤ x y && p)) ≡ true
    → (ltb_ℤ y z || (eqb_ℤ y z && q)) ≡ true
    → (p ≡ true → q ≡ true → r ≡ true)
    → (ltb_ℤ x z || (eqb_ℤ x z && r)) ≡ true
lexicographic x y z p q r h k f = ground (arith, f)

is_before_trans :
    (a b c : EvictionCursor) → is_before a b ≡ true → is_before b c ≡ true → is_before a c ≡ true
unfolding is_before
is_before_trans a b c h k =
    lexicographic a.accessed_at b.accessed_at c.accessed_at _ _ _ h k
      (λ h' k'. lexicographic a.size b.size c.size _ _ _ h' k' (λ h'' k''. by_id h'' k''))
  where
    by_id : ltb_ℤ a.id b.id ≡ true → ltb_ℤ b.id c.id ≡ true → ltb_ℤ a.id c.id ≡ true
    by_id h k = ground (arith, h, k)

module _ {A : Type 0} (p q : A → Bool) (sub : (x : A) → q x ≡ true → p x ≡ true) where
  select-le : (xs : List A) → length (select q xs) ≤ length (select p xs)
  unfolding select
  select-le [] = omega arith
  select-le (x ∷ xs) = ground (arith, sub x, select-le xs)

  -- A test that misses an element that the weaker test finds selects fewer.
  select-lt :
      (xs : List A)
      → (All (λ x. (p x && not (q x)) ≡ false) xs → ⊥)
      → length (select q xs) < length (select p xs)
  unfolding select
  select-lt [] h = absurd (h tt)
  select-lt (x ∷ xs) h = elim (Bool-cases (p x && not (q x))) [
    | inl t ↦ ground (arith, t, select-le xs)
    | inr f ↦ ground (arith, f, sub x, select-lt xs (λ a. h (f, a)))
  ]

select_test : {A : Type 0} (p : A → Bool) (xs : List A) → All (λ x. p x ≡ true) (select p xs)
unfolding select
select_test p [] = tt
select_test p (x ∷ xs) = elim (Bool-cases (p x)) [
  | inl t ↦ rw (t, select) (t, select_test p xs)
  | inr f ↦ rw (f, select) (select_test p xs)
]

-- What holds of the rows past the cursor holds of the last of the page.
module _ (P : PruneCandidate → Type 0) where
  insert_candidate-All :
      (c : PruneCandidate) (ds : List PruneCandidate)
      → P c
      → All P ds
      → All P (insert_candidate c ds)
  unfolding insert_candidate
  insert_candidate-All c [] h a = (h, tt)
  insert_candidate-All c (d ∷ ds) h a = elim (Bool-cases (is_before (cursor_of d) (cursor_of c))) [
    | inl t ↦ rw (t, insert_candidate) (a.0, insert_candidate-All c ds h a.1)
    | inr f ↦ rw (f, insert_candidate) (h, a)
  ]

  order_candidates-All : (cs : List PruneCandidate) → All P cs → All P (order_candidates cs)
  unfolding order_candidates
  order_candidates-All [] a = tt
  order_candidates-All (c ∷ cs) a =
      insert_candidate-All c (order_candidates cs) a.0 (order_candidates-All cs a.1)

  take-All : (n : ℕ) (cs : List PruneCandidate) → All P cs → All P (take n cs)
  take-All zero cs a = tt
  take-All (suc n) [] a = tt
  take-All (suc n) (c ∷ cs) a = (a.0, take-All n cs a.1)

  last_of-All : (d : PruneCandidate) (ds : List PruneCandidate) → All P (d ∷ ds) → P (last_of d ds)
  last_of-All d [] a = a.0
  last_of-All d (e ∷ ds) a = last_of-All e ds a.1

  page-All :
      (c : Catalog) (cursor : EvictionCursor) (d : PruneCandidate) (ds : List PruneCandidate)
      → eviction_candidates c cursor eviction_sample_size ≡ d ∷ ds
      → All P (select (λ e. is_before cursor (cursor_of e)) (map candidate_of c.outputs))
      → P (last_of d ds)
  unfolding eviction_candidates
  page-All c cursor d ds q a =
      last_of-All d ds (rw q at (take-All eviction_sample_size _ (order_candidates-All _ a)))

length-select : {A : Type 0} (p : A → Bool) (xs : List A) → length (select p xs) ≤ length xs
unfolding select
length-select p [] = omega arith
length-select p (x ∷ xs) = ground (arith, length-select p xs)

length-map : {A B : Type 0} (f : A → B) (xs : List A) → length (map f xs) ≡ length xs
length-map f [] = refl
length-map f (x ∷ xs) = omega (arith, length-map f xs)

-- The rows past a cursor.
abbrev left : Catalog → EvictionCursor → ℕ
left c cursor = length (select (λ d. is_before cursor (cursor_of d)) (map candidate_of c.outputs))

-- A page leaves fewer rows past its end than there were past its beginning.
left-last_of :
    (c : Catalog) (cursor : EvictionCursor) (d : PruneCandidate) (ds : List PruneCandidate)
    → eviction_candidates c cursor eviction_sample_size ≡ d ∷ ds
    → left c (cursor_of (last_of d ds)) < left c cursor
left-last_of c cursor d ds q =
    select-lt past later (λ x. is_before_trans cursor end (cursor_of x) ahead) rows
      (λ a.
        let missed =
          page-All (λ x. (past x && not (later x)) ≡ false) c cursor d ds q
            (All-select (λ x. (past x && not (later x)) ≡ false) past rows a) in
        absurd (ground (arith, missed, ahead, is_before-irreflexive end)))
  where
    end : EvictionCursor
    end = cursor_of (last_of d ds)

    rows : List PruneCandidate
    rows = map candidate_of c.outputs

    past : PruneCandidate → Bool
    past x = is_before cursor (cursor_of x)

    later : PruneCandidate → Bool
    later x = is_before end (cursor_of x)

    ahead : is_before cursor end ≡ true
    ahead = page-All (λ x. past x ≡ true) c cursor d ds q (select_test past rows)

plan_pages-ends :
    (c : Catalog) (fuel n : ℕ) (cursor : EvictionCursor) (chosen : List PruneCandidate) (need : ℤ)
    → left c cursor < fuel
    → (cs : List PruneCandidate) × (plan_pages (λ _. some c) fuel n cursor chosen need ≡ some cs)
unfolding plan_pages
plan_pages-ends c zero n cursor chosen need lt = absurd (omega arith)
plan_pages-ends c (suc fuel) n cursor chosen need lt = elim (Bool-cases (leb_ℤ need (pos 0))) [
  | inl t ↦ (chosen, rw (t, plan_pages) refl)
  | inr f ↦ elim (page_cases (eviction_candidates c cursor eviction_sample_size)) [
    | inl q ↦ (chosen, rw (f, q, plan_pages) refl)
    | inr (d, ds, q) ↦
        let r = take_batch (d ∷ ds) chosen need in
        let (cs, e) =
          plan_pages-ends c fuel (n + 1) (cursor_of (last_of d ds)) r.0 r.1
            (omega (arith, left-last_of c cursor d ds q)) in
        (cs, rw (f, q, plan_pages) e)
  ]
]

left-le : (c : Catalog) (cursor : EvictionCursor) → left c cursor ≤ length c.outputs
left-le c cursor = omega (
  arith,
  length-select (λ d. is_before cursor (cursor_of d)) (map candidate_of c.outputs),
  length-map candidate_of c.outputs,
)

-- Planning ends: on a catalog that stands still, one more page than the catalog has outputs is
-- enough for a plan, whatever the budget and the cutoff.
pub plan_to_max_size-ends :
    (c : Catalog) (fuel : ℕ) (max_size entry_cutoff : ℤ)
    → length c.outputs < fuel
    → (cs : List PruneCandidate) × (plan_to_max_size
          (λ _. some c)
          fuel
          max_size
          entry_cutoff
          (some c)
        ≡ some cs)
unfolding plan_to_max_size
plan_to_max_size-ends c fuel max_size entry_cutoff lt = elim (Bool-cases (leb_ℤ max_size (pos 0))) [
  | inl t ↦ ([], rw t refl)
  | inr f ↦ elim (Bool-cases (leb_ℤ (pos (compressed_size c)) max_size)) [
    | inl t ↦ ([], rw (f, t) refl)
    | inr g ↦
        let cursor : EvictionCursor = record {
          accessed_at = entry_cutoff;
          size = negsuc 0;
          id = negsuc 0;
        } in
        let (cs, e) =
          plan_pages-ends c fuel 0 cursor [] (pos (compressed_size c) -ℤ max_size)
            (omega (arith, left-le c cursor)) in
        (cs, rw (f, g) e)
  ]
]
