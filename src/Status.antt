-- ===== src/Status.antt =====
-- The tables of the status report and how it writes ages (status.go). Writing goes to a list of
-- bytes; none is a panic.
pub mod Tables
pub mod Ages
use gocachez.Prelude.{
  ℕ, zero, suc, ◌+◌, ◌-◌, ◌*◌, ◌/◌, ◌%◌, max, Bool, true, false, not, ◌&&◌, ◌||◌, Option, none,
  some, List, [], ◌∷◌, ◌++◌, Bytes, codes, length, ltb, ◌==◌, if◌then◌else◌,
}
use gocachez.Prelude.Int.{ℤ, pos, pos_part, ltb_ℤ, leb_ℤ}

-- `tableWidths`: one row, and all rows.
unfoldable pub widen : List ℕ → List Bytes → List ℕ
widen ws [] = ws
widen [] (c ∷ cs) = max 0 (length c) ∷ widen [] cs
widen (w ∷ ws) (c ∷ cs) = max w (length c) ∷ widen ws cs

unfoldable pub widths_from : List ℕ → List (List Bytes) → List ℕ
widths_from ws [] = ws
widths_from ws (row ∷ rows) = widths_from (widen ws row) rows

unfoldable pub table_widths : List (List Bytes) → List ℕ
table_widths rows = widths_from [] rows

-- The cells of a row up to the last one that is not empty; the first one is always written.
unfoldable pub trim_tail : List Bytes → List Bytes
trim_tail [] = []
trim_tail (c ∷ cs) = elim (trim_tail cs) [
  | [] ↦ if length c == 0 then [] else c ∷ []
  | d ∷ ds ↦ c ∷ d ∷ ds
]

unfoldable pub trim_row : List Bytes → List Bytes
trim_row [] = []
trim_row (c ∷ cs) = c ∷ trim_tail cs

unfoldable pub spaces : ℕ → Bytes
spaces zero = []
spaces (suc n) = b' ' ∷ spaces n

-- `strings.Repeat(" ", width - len)`, which panics where the count is negative.
unfoldable pub pad : ℕ → ℕ → Option Bytes
pad width len = if ltb width len then none else some (spaces (width - len))

unfoldable pub pad_if : Bool → ℕ → ℕ → Option Bytes
pad_if b width len = if b then pad width len else some []

abbrev pub is_nil : List Bytes → Bool
is_nil [] = true
is_nil (c ∷ cs) = false

-- The cells of a row; `first` is whether the next one is the first. A cell without a width is an
-- index out of range.
unfoldable pub write_cells : Bool → Bool → List ℕ → List Bytes → Option Bytes
write_cells right first ws [] = some []
write_cells right first [] (c ∷ cs) = none
write_cells right first (w ∷ ws) (c ∷ cs) = elim (pad_if (right && not first) w (length c)) [
  | none ↦ none
  | some before ↦ elim (pad_if (not (is_nil cs) && (not right || first)) w (length c)) [
    | none ↦ none
    | some after ↦ elim (write_cells right false ws cs) [
      | none ↦ none
      | some rest ↦ some ((if first then [] else codes "  ") ++ before ++ c ++ after ++ rest)
    ]
  ]
]

unfoldable pub write_rows : Bool → List ℕ → List (List Bytes) → Option Bytes
write_rows right ws [] = some []
write_rows right ws (row ∷ rows) = elim (write_cells right true ws (trim_row row)) [
  | none ↦ none
  | some line ↦ elim (write_rows right ws rows) [
    | none ↦ none
    | some rest ↦ some (codes "  " ++ line ++ b'\n' ∷ rest)
  ]
]

-- `writeTableAligned`
unfoldable pub write_table_aligned : Bool → Bytes → List (List Bytes) → Option Bytes
write_table_aligned right title rows = elim (write_rows right (table_widths rows) rows) [
  | none ↦ none
  | some text ↦ some (title ++ codes ":\n" ++ text ++ b'\n' ∷ [])
]

-- The units of `formatAge`, in nanoseconds.
abbrev pub minute : ℕ
minute = 60000000000

abbrev pub hour : ℕ
hour = 3600000000000

abbrev pub a_day : ℕ
a_day = 86400000000000

abbrev pub year : ℕ
year = 31536000000000000

-- What `formatAge` writes: an amount of a unit, or two amounts where the second is not 0.
pub data AgeText : Type 0 where
  below_minute : AgeText
  one : ℕ → ℕ → AgeText
  two : ℕ → ℕ → ℕ → ℕ → AgeText

unfoldable pub amounts : ℕ → ℕ → ℕ → AgeText
amounts age unit part =
    let rest = age % unit / part in
    if rest == 0 then one (age / unit) unit else two (age / unit) unit rest part

unfoldable pub format_age : ℤ → AgeText
format_age age =
    let n = pos_part age in
    if ltb n minute
    then below_minute
    else if ltb n hour
    then one (n / minute) minute
    else if ltb n a_day
    then amounts n hour minute
    else if ltb n year
    then amounts n a_day hour
    else amounts n year a_day
