-- ===== src/Maintenance/Chosen.antt =====
-- What a batch of a plan chooses, and keeps of what was chosen before (cache.go).
use gocachez.Prelude.{
  ◌≡◌, true, false, List, [], ◌∷◌, ◌++◌, same_refl, arith, Bool-cases, inl, inr, All,
}
use gocachez.Prelude.Int.{ℤ, pos, leb_ℤ, ◌-ℤ◌}
use gocachez.Catalog.{Key}
use gocachez.Maintenance.Evict.{PruneCandidate}
use gocachez.Maintenance.Plan.{is_seen, take_batch}

is_seen-append :
    (key : Key) (cs ds : List PruneCandidate)
    → is_seen key cs ≡ true
    → is_seen key (cs ++ ds) ≡ true
unfolding is_seen
is_seen-append key [] ds h = absurd (ground arith)
is_seen-append key (c ∷ cs) ds h = ground (arith, is_seen-append key cs ds)

is_seen-last :
    (c : PruneCandidate) (cs : List PruneCandidate) → is_seen c.output_id (cs ++ c ∷ []) ≡ true
unfolding is_seen
is_seen-last c [] = ground (arith, same_refl c.output_id)
is_seen-last c (d ∷ cs) = ground (arith, is_seen-last c cs)

-- What was chosen stays chosen.
pub take_batch-is_seen :
    (key : Key) (cs chosen : List PruneCandidate) (need : ℤ)
    → is_seen key chosen ≡ true
    → is_seen key (take_batch cs chosen need).0 ≡ true
unfolding take_batch
take_batch-is_seen key [] chosen need h = h
take_batch-is_seen key (c ∷ cs) chosen need h = elim (Bool-cases (is_seen c.output_id chosen)) [
  | inl t ↦ rw (t, take_batch) (take_batch-is_seen key cs chosen need h)
  | inr f ↦
      let longer = is_seen-append key chosen (c ∷ []) h in
      elim (Bool-cases (leb_ℤ (need -ℤ pos c.size) (pos 0))) [
        | inl t ↦ rw (f, t, take_batch) longer
        | inr g ↦
            rw (f, g, take_batch)
              (take_batch-is_seen key cs (chosen ++ c ∷ []) (need -ℤ pos c.size) longer)
      ]
]

-- A page that does not cover the need is taken as a whole.
pub take_batch-All :
    (cs chosen : List PruneCandidate) (need : ℤ) (r : List PruneCandidate × ℤ)
    → take_batch cs chosen need ≡ r
    → leb_ℤ r.1 (pos 0) ≡ false
    → All (λ x. is_seen x.output_id r.0 ≡ true) cs
unfolding take_batch
take_batch-All [] chosen need r e h = tt
take_batch-All (c ∷ cs) chosen need r e h = elim (Bool-cases (is_seen c.output_id chosen)) [
  | inl t ↦
      let e' : take_batch cs chosen need ≡ r = rw (t, take_batch) at e in
      (
        rw e' at (take_batch-is_seen c.output_id cs chosen need t),
        take_batch-All cs chosen need r e' h,
      )
  | inr f ↦ elim (Bool-cases (leb_ℤ (need -ℤ pos c.size) (pos 0))) [
    | inl t ↦ absurd (ground (arith, f, t))
    | inr g ↦
        let longer = chosen ++ c ∷ [] in
        let e' : take_batch cs longer (need -ℤ pos c.size) ≡ r = rw (f, g, take_batch) at e in
        (
          rw e' at (
              take_batch-is_seen c.output_id cs longer (need -ℤ pos c.size)
                (is_seen-last c chosen)),
          take_batch-All cs longer (need -ℤ pos c.size) r e' h,
        )
  ]
]
