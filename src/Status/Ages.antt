-- ===== src/Status/Ages.antt =====
-- An age is written to the precision of its range.
use gocachez.Prelude.{ℕ, ◌+◌, ◌*◌, ◌≤◌, ◌<◌, ltb, if◌then◌else◌, arith}
use gocachez.Prelude.Int.{ℤ, pos_part}
use gocachez.Status.{
  minute, hour, a_day, year, AgeText, below_minute, one, two, amounts, format_age,
}

-- The age that a text stands for.
abbrev pub age_of : AgeText → ℕ
age_of below_minute = 0
age_of (one a unit) = a * unit
age_of (two a unit b part) = a * unit + b * part

abbrev pub precision : ℕ → ℕ
precision n = if ltb n a_day then minute else if ltb n year then hour else a_day

-- An age is written rounded down to minutes, hours or days: the text stands for at most the age,
-- and for less than it only by less than the precision of the age's range. A negative age is
-- written as none.
pub format_age_lem :
    (age : ℤ)
    → (age_of (format_age age) ≤ pos_part age)
      × (pos_part age < age_of (format_age age) + precision (pos_part age))
unfolding format_age amounts
format_age_lem age = ground arith
