-- ===== src/Tests/Reports.antt =====
-- The theorems on the status report at a small table and an age.
use gocachez.Prelude.{◌+◌, ◌≤◌, ◌<◌, ◌≡◌, refl, true, some, List, [], ◌∷◌, Bytes, codes}
use gocachez.Prelude.Int.{pos}
use gocachez.Status.{
  two, hour, minute, amounts, format_age, write_table_aligned, table_widths, widths_from, widen,
  write_rows, write_cells, trim_row, trim_tail, pad_if, pad, spaces,
}
use gocachez.Status.Tables.{write_table_aligned-some}
use gocachez.Status.Ages.{age_of, precision, format_age_lem}

abbrev rows : List (List Bytes)
rows =
    (codes "Type" ∷ codes "Files" ∷ [])
    ∷ (codes "None" ∷ codes "0" ∷ [])
    ∷ (codes "x" ∷ [] ∷ [])
    ∷ []

right_table :
    write_table_aligned true (codes "T") rows
    ≡ some (codes "T:\n  Type  Files\n  None      0\n  x\n\n")
unfolding write_table_aligned table_widths widths_from widen write_rows write_cells trim_row
    trim_tail pad_if pad spaces
right_table = refl

write_table_aligned-some_example :
    (text : Bytes) × (write_table_aligned true (codes "T") rows ≡ some text)
write_table_aligned-some_example = write_table_aligned-some true (codes "T") rows

hours : format_age (pos 7290000000000) ≡ two 2 hour 1 minute
unfolding format_age amounts
hours = refl

format_age_lem_example :
    (age_of (format_age (pos 7290000000000)) ≤ 7290000000000)
    × (7290000000000 < age_of (format_age (pos 7290000000000)) + precision 7290000000000)
format_age_lem_example = format_age_lem (pos 7290000000000)
