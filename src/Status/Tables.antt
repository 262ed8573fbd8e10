-- ===== src/Status/Tables.antt =====
-- A table never panics.
use gocachez.Prelude.{
  ℕ, ◌-◌, ◌≤◌, ◌≡◌, refl, Bool, true, false, not, ◌&&◌, ◌||◌, some, List, [], ◌∷◌, ◌++◌, Bytes,
  codes, length, ◌==◌, All, arith, Bool-cases, inl, inr, if◌then◌else◌,
}
use gocachez.Expiry.Select.{List-cases}
use gocachez.Status.{
  widen, widths_from, table_widths, trim_tail, trim_row, spaces, pad, pad_if, is_nil, write_cells,
  write_rows, write_table_aligned,
}

-- Every cell has a width that it fits in.
abbrev Fits : List ℕ → List Bytes → Type 0
Fits ws [] = Unit
Fits [] (c ∷ cs) = ⊥
Fits (w ∷ ws) (c ∷ cs) = (length c ≤ w) × Fits ws cs

widen-Fits : (ws : List ℕ) (row : List Bytes) → Fits (widen ws row) row
unfolding widen
widen-Fits ws [] = tt
widen-Fits [] (c ∷ cs) = (omega arith, widen-Fits [] cs)
widen-Fits (w ∷ ws) (c ∷ cs) = (omega arith, widen-Fits ws cs)

Fits-widen : (ws : List ℕ) (row new : List Bytes) → Fits ws row → Fits (widen ws new) row
unfolding widen
Fits-widen ws [] new f = tt
Fits-widen [] (c ∷ cs) new f = absurd f
Fits-widen (w ∷ ws) (c ∷ cs) [] f = f
Fits-widen (w ∷ ws) (c ∷ cs) (d ∷ ds) f = (omega (arith, f.0), Fits-widen ws cs ds f.1)

Fits-widths_from :
    (ws : List ℕ) (row : List Bytes) (rows : List (List Bytes))
    → Fits ws row
    → Fits (widths_from ws rows) row
unfolding widths_from
Fits-widths_from ws row [] f = f
Fits-widths_from ws row (new ∷ rows) f =
    Fits-widths_from (widen ws new) row rows (Fits-widen ws row new f)

widths_from-Fits : (ws : List ℕ) (rows : List (List Bytes)) → All (Fits (widths_from ws rows)) rows
unfolding widths_from
widths_from-Fits ws [] = tt
widths_from-Fits ws (row ∷ rows) = (
  Fits-widths_from (widen ws row) row rows (widen-Fits ws row),
  widths_from-Fits (widen ws row) rows,
)

trim_tail-Fits : (ws : List ℕ) (cs : List Bytes) → Fits ws cs → Fits ws (trim_tail cs)
unfolding trim_tail
trim_tail-Fits ws [] f = tt
trim_tail-Fits [] (c ∷ cs) f = absurd f
trim_tail-Fits (w ∷ ws) (c ∷ cs) f =
    let ih = trim_tail-Fits ws cs f.1 in
    elim (List-cases (trim_tail cs)) [
      | inl n ↦ elim (Bool-cases (length c == 0)) [
        | inl t ↦ rw (trim_tail, n, t) tt
        | inr g ↦ rw (trim_tail, n, g) (f.0, tt)
      ]
      | inr (d, ds, e) ↦ rw (trim_tail, e) (f.0, rw e at ih)
    ]

trim_row-Fits : (ws : List ℕ) (cs : List Bytes) → Fits ws cs → Fits ws (trim_row cs)
unfolding trim_row
trim_row-Fits ws [] f = tt
trim_row-Fits [] (c ∷ cs) f = absurd f
trim_row-Fits (w ∷ ws) (c ∷ cs) f = (f.0, trim_tail-Fits ws cs f.1)

pad_if-some : (b : Bool) (w n : ℕ) → n ≤ w → (x : Bytes) × (pad_if b w n ≡ some x)
unfolding pad_if pad
pad_if-some true w n h = (spaces (w - n), ground (arith, h))
pad_if-some false w n h = ([], refl)

write_cells-some :
    (right first : Bool) (ws : List ℕ) (cs : List Bytes)
    → Fits ws cs
    → (x : Bytes) × (write_cells right first ws cs ≡ some x)
unfolding write_cells
write_cells-some right first ws [] f = ([], refl)
write_cells-some right first [] (c ∷ cs) f = absurd f
write_cells-some right first (w ∷ ws) (c ∷ cs) f =
    let (before, p) = pad_if-some (right && not first) w (length c) f.0 in
    let (after, q) = pad_if-some (not (is_nil cs) && (not right || first)) w (length c) f.0 in
    let (rest, r) = write_cells-some right false ws cs f.1 in
    (
      (if first then [] else codes "  ") ++ before ++ c ++ after ++ rest,
      rw (write_cells, p, q, r) refl,
    )

write_rows-some :
    (right : Bool) (ws : List ℕ) (rows : List (List Bytes))
    → All (Fits ws) rows
    → (x : Bytes) × (write_rows right ws rows ≡ some x)
unfolding write_rows
write_rows-some right ws [] a = ([], refl)
write_rows-some right ws (row ∷ rows) a =
    let (line, p) = write_cells-some right true ws (trim_row row) (trim_row-Fits ws row a.0) in
    let (rest, q) = write_rows-some right ws rows a.1 in
    (codes "  " ++ line ++ b'\n' ∷ rest, rw (write_rows, p, q) refl)

-- Writing a table never panics, however its rows differ in their number of cells: every cell that is
-- written has a width, and no padding is negative.
pub write_table_aligned-some :
    (right : Bool) (title : Bytes) (rows : List (List Bytes))
    → (text : Bytes) × (write_table_aligned right title rows ≡ some text)
unfolding write_table_aligned table_widths
write_table_aligned-some right title rows =
    let (text, p) = write_rows-some right (widths_from [] rows) rows (widths_from-Fits [] rows) in
    (title ++ codes ":\n" ++ text ++ b'\n' ∷ [], rw (write_table_aligned, table_widths, p) refl)
