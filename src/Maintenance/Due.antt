-- ===== src/Maintenance/Due.antt =====
-- When maintenance is due, and the cutoffs of expiry by age (cache.go). Times and durations are in
-- nanoseconds; a stamp is the modification time of its file, or none where it cannot be read.
use gocachez.Prelude.{
  ℕ, zero, suc, ◌%◌, ◌+◌, ◌-◌, ◌/◌, ◌^◌, ◌≤◌, ◌<◌, ◌≡◌, refl, sym, ap, ◌∙◌, Bool, true, false, ◌&&◌,
  ◌||◌, Option, none, some, if◌then◌else◌, arith, ltb, ◌↔◌,
}
use gocachez.Prelude.Int.{
  ℤ, pos, negsuc, leb_ℤ, ltb_ℤ, ◌-ℤ◌, ◌+ℤ◌, pos_part, neg_part, sub_ℕ, wrap64, ◌≤ℤ◌, ◌<ℤ◌,
}

-- An hour: `pruneInterval` and `mtimeInterval`.
abbrev pub prune_interval : ℕ
prune_interval = 3600000000000

abbrev pub mtime_interval : ℕ
mtime_interval = 3600000000000

abbrev pub prune_overshoot_divisor : ℕ
prune_overshoot_divisor = 16

-- `sweepDue` and `retainedExpiryDue`, at their stamps.
unfoldable pub sweep_due : Option ℤ → ℤ → Bool
sweep_due none now = true
sweep_due (some stamp) now =
    leb_ℤ (pos prune_interval) (now -ℤ stamp) || ltb_ℤ (now -ℤ stamp) (pos 0)

unfoldable pub retained_expiry_due : Option ℤ → ℤ → Bool
retained_expiry_due none now = true
retained_expiry_due (some stamp) now =
    leb_ℤ (pos prune_interval) (now -ℤ stamp) || ltb_ℤ (now -ℤ stamp) (pos 0)

-- `pruneDue`. A positive budget is divided as a natural number.
unfoldable pub prune_due : ℤ → ℕ → Option ℤ → ℤ → Bool
prune_due max_size installed stamp now =
    if ltb_ℤ (pos 0) max_size && ltb (pos_part max_size / prune_overshoot_divisor) installed
    then true
    else elim stamp [
      | none ↦ true
      | some at ↦ leb_ℤ (pos prune_interval) (now -ℤ at) || ltb_ℤ (now -ℤ at) (pos 0)
    ]

-- `trimCutoff`: the negation and the subtraction are those of `time.Duration`, an `int64`.
unfoldable pub trim_cutoff : ℤ → ℤ → ℤ
trim_cutoff max_age now = now +ℤ wrap64 (wrap64 (pos 0 -ℤ max_age) -ℤ pos mtime_interval)

-- `unixMillis`: `UnixNano` is an `int64`, and the division of Go rounds towards zero.
unfoldable pub unix_millis : ℤ → ℤ
unix_millis t =
    let nanos = wrap64 t in pos (pos_part nanos / 1000000) -ℤ pos (neg_part nanos / 1000000)

-- `planOldEntries`
unfoldable pub plan_old_entries : ℤ → ℤ → ℤ
plan_old_entries max_age now =
    if leb_ℤ max_age (pos 0) then pos 0 else unix_millis (trim_cutoff max_age now)

-- The prune pass is put off exactly while its stamp is from the last hour and, if there is a
-- budget, this run has installed at most a sixteenth of it: a stamp that is missing, an hour old or
-- dated in the future makes it due.
pub prune_due-false_iff :
    (max_size : ℤ) (installed : ℕ) (stamp : Option ℤ) (now : ℤ)
    → (prune_due max_size installed stamp now ≡ false) ↔ (
        (at : ℤ) × (stamp ≡ some at)
        × (at ≤ℤ now)
        × ((now -ℤ at) <ℤ pos prune_interval)
        × ((ltb_ℤ (pos 0) max_size && ltb (pos_part max_size / prune_overshoot_divisor) installed)
            ≡ false))
unfolding prune_due ◌-ℤ◌
prune_due-false_iff max_size installed none now =
    (λ h. absurd (ground arith), λ h. absurd (ground (arith, h.1)))
prune_due-false_iff max_size installed (some at) now = (
  λ h. (at, refl, ground arith, ground arith, ground arith),
  λ h.
      let (at', e, le, lt, small) = h in
      let same_time : at ≡ at' = ground (arith, e) in ground (arith, same_time, le, lt, small),
)

wrap64-negative : (n : ℕ) → n ≤ 2 ^ 63 → wrap64 (sub_ℕ 0 n) ≡ sub_ℕ 0 n
unfolding wrap64
wrap64-negative zero h = refl
wrap64-negative (suc n) h = ap wrap64 neg ∙ rw below (ground arith) ∙ sym neg
  where
    neg : sub_ℕ 0 (suc n) ≡ negsuc n
    neg = ground arith

    below : n % 2 ^ 64 ≡ n
    below = omega arith

sub_ℕ-minus : (a b : ℕ) → (sub_ℕ 0 a -ℤ pos b) ≡ sub_ℕ 0 (a + b)
unfolding ◌-ℤ◌
sub_ℕ-minus a b = ground arith

zero-minus : (b : ℕ) → (pos 0 -ℤ pos b) ≡ sub_ℕ 0 b
unfolding ◌-ℤ◌
zero-minus b = ground arith

plus-sub_ℕ : (x : ℤ) (n : ℕ) → (x +ℤ sub_ℕ 0 n) ≡ (x -ℤ pos n)
unfolding ◌-ℤ◌ ◌+ℤ◌
plus-sub_ℕ x n = ground arith

-- The cutoff is the age and an hour before now, for every age up to the longest duration less an
-- hour.
pub trim_cutoff_lem :
    (age : ℕ) (now : ℤ)
    → age + mtime_interval ≤ 2 ^ 63
    → trim_cutoff (pos age) now ≡ (now -ℤ pos (age + mtime_interval))
unfolding trim_cutoff
trim_cutoff_lem age now h =
    let whole = wrap64-negative (age + mtime_interval) h in
    ap (λ x. now +ℤ wrap64 (wrap64 x -ℤ pos mtime_interval)) (zero-minus age)
    ∙ ap (λ x. now +ℤ wrap64 (x -ℤ pos mtime_interval)) (wrap64-negative age (omega arith))
    ∙ ap (λ x. now +ℤ wrap64 x) (sub_ℕ-minus age mtime_interval)
    ∙ ap (λ x. now +ℤ x) whole
    ∙ plus-sub_ℕ now (age + mtime_interval)

wrap64-overflow : (n : ℕ) → 2 ^ 63 < n → n ≤ 2 ^ 64 → wrap64 (sub_ℕ 0 n) ≡ pos (2 ^ 64 - n)
unfolding wrap64
wrap64-overflow zero lt le = absurd (omega arith)
wrap64-overflow (suc n) lt le = ap wrap64 neg ∙ rw below (ground arith)
  where
    neg : sub_ℕ 0 (suc n) ≡ negsuc n
    neg = ground arith

    below : n % 2 ^ 64 ≡ n
    below = omega arith

-- For an age within an hour of the longest duration the subtraction wraps around: the cutoff is
-- 2 ^ 64 nanoseconds less the age and an hour after now.
pub trim_cutoff-overflow :
    (age : ℕ) (now : ℤ)
    → age < 2 ^ 63
    → 2 ^ 63 < age + mtime_interval
    → trim_cutoff (pos age) now ≡ (now +ℤ pos (2 ^ 64 - (age + mtime_interval)))
unfolding trim_cutoff
trim_cutoff-overflow age now lt over =
    ap (λ x. now +ℤ wrap64 (wrap64 x -ℤ pos mtime_interval)) (zero-minus age)
    ∙ ap (λ x. now +ℤ wrap64 (x -ℤ pos mtime_interval)) (wrap64-negative age (omega arith))
    ∙ ap (λ x. now +ℤ wrap64 x) (sub_ℕ-minus age mtime_interval)
    ∙ ap (λ x. now +ℤ x) (wrap64-overflow (age + mtime_interval) over (omega arith))
