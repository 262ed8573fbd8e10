-- ===== src/Catalog/WellFormed.antt =====
-- The invariant of the tables, and what each statement of catalog.go does to the rows of `outputs`
-- that an entry may resolve to.
use gocachez.Prelude.{
  ℕ, ◌+◌, ◌≤◌, ◌≡◌, refl, ◌≢◌, Bool, false, some, List, [], ◌∷◌, inl, inr, All, All-imp, All-append,
  All-find, find, same_iff, Option-cases, Bool-cases, arith, if◌then◌else◌,
}
use gocachez.Prelude.Int.{ℤ}
use gocachez.Catalog.{
  Key, OutputRow, EntryRow, Catalog, init, output_tag, update_where, delete_where, has_output_id,
  upsert_output,
}
use gocachez.Catalog.Tables.{
  Apart, All-update_where, All-delete_where, Apart-append, All-of_find-none,
}

-- Every row with the id `i` names an output that satisfies `P`.
abbrev pub Points : (Key → Type 0) → ℕ → List OutputRow → Type 0
Points P i = All (λ o. o.id ≡ i → P o.output_id)

-- The entry refers to an id that was handed out, and its tag fits what it resolves to.
abbrev pub IsSound : Catalog → EntryRow → Type 0
IsSound c e = (e.output ≤ c.sequence) × Points (λ k. output_tag k ≡ e.output_tag) e.output c.outputs

abbrev pub Unlike : OutputRow → OutputRow → Type 0
Unlike o p = (o.id ≢ p.id) × (o.output_id ≢ p.output_id)

abbrev pub OtherAction : EntryRow → EntryRow → Type 0
OtherAction e f = e.action_id ≢ f.action_id

pub record IsWellFormed (c : Catalog) : Type 0 where
  pub ids : All (λ o. o.id ≤ c.sequence) c.outputs
  pub unlike : Apart Unlike c.outputs
  pub actions : Apart OtherAction c.entries
  pub sound : All (IsSound c) c.entries

pub init-IsWellFormed : IsWellFormed init
init-IsWellFormed = record { ids = tt; unlike = tt; actions = tt; sound = tt }

-- An update that keeps the columns that identify a row keeps rows apart.
module _ (p : OutputRow → Bool) (f : OutputRow → OutputRow)
    (id-f : (o : OutputRow) → (f o).id ≡ o.id)
    (key-f : (o : OutputRow) → (f o).output_id ≡ o.output_id) where
  pub Points-update_where :
      (P : Key → Type 0) (i : ℕ) (xs : List OutputRow)
      → Points P i xs
      → Points P i (update_where p f xs)
  Points-update_where P i xs =
      All-update_where (λ o. o.id ≡ i → P o.output_id) p f xs
        (λ o _ h e. rw (key-f o) (h (rw (id-f o) at e)))

  pub ids-update_where :
      (n : ℕ) (xs : List OutputRow)
      → All (λ o. o.id ≤ n) xs
      → All (λ o. o.id ≤ n) (update_where p f xs)
  ids-update_where n xs = All-update_where (λ o. o.id ≤ n) p f xs (λ o _ h. rw (id-f o) h)

  Unlike-update_where :
      (o : OutputRow) (xs : List OutputRow)
      → All (Unlike o) xs
      → All (Unlike (if p o then f o else o)) (update_where p f xs)
  Unlike-update_where o xs a = elim (Bool-cases (p o)) [
    | inl t ↦ rw t (
        All-imp (Unlike o) (Unlike (f o)) (update_where p f xs)
          (λ q u. (rw (id-f o) u.0, rw (key-f o) u.1)) (kept o xs a))
    | inr e ↦ rw e (kept o xs a)
  ]
    where
      kept :
          (o : OutputRow) (xs : List OutputRow)
          → All (Unlike o) xs
          → All (Unlike o) (update_where p f xs)
      kept o xs = All-update_where (Unlike o) p f xs (λ q _ u. (rw (id-f q) u.0, rw (key-f q) u.1))

  pub Apart-update_where :
      (xs : List OutputRow) → Apart Unlike xs → Apart Unlike (update_where p f xs)
  unfolding update_where
  Apart-update_where [] a = tt
  Apart-update_where (x ∷ xs) a = (Unlike-update_where x xs a.0, Apart-update_where xs a.1)

pub Points-delete_where :
    (P : Key → Type 0) (i : ℕ) (p : OutputRow → Bool) (xs : List OutputRow)
    → Points P i xs
    → Points P i (delete_where p xs)
Points-delete_where P i p xs = All-delete_where (λ o. o.id ≡ i → P o.output_id) p xs

-- The rows that share the id of the row found by a key are that row.
pub Points-of_find :
    (key : Key) (xs : List OutputRow) (o : OutputRow)
    → Apart Unlike xs
    → find (has_output_id key) xs ≡ some o
    → Points (λ k. k ≡ key) o.id xs
unfolding find
Points-of_find key [] o a h = tt
Points-of_find key (x ∷ xs) o a h = elim (Bool-cases (has_output_id key x)) [
  | inl t ↦ (
    λ _. (same_iff x.output_id key).0 t,
    All-imp (Unlike x) (λ q. q.id ≡ o.id → q.output_id ≡ key) xs
        (λ q u e. absurd (u.0 (ground (arith, e)))) a.0,
  )
  | inr f ↦
      let later : find (has_output_id key) xs ≡ some o = ground arith in
      (
        λ e. absurd ((All-find (Unlike x) (has_output_id key) xs o a.0 later).0 e),
        Points-of_find key xs o a.1 later,
      )
]

-- Putting an output leaves every id that was handed out naming what it named.
module _ (key : Key) (size csize : ℕ) (at : ℤ) (c : Catalog) where
  pub upsert_output-Points :
      (P : Key → Type 0) (i : ℕ)
      → i ≤ c.sequence
      → Points P i c.outputs
      → Points P i (upsert_output key size csize at c).1.outputs
  unfolding upsert_output
  upsert_output-Points P i le a = elim (Option-cases (find (has_output_id key) c.outputs)) [
    | inl miss ↦
        rw (miss, upsert_output)
          (All-append (λ o. o.id ≡ i → P o.output_id) c.outputs _ a (λ e. absurd (omega arith), tt))
    | inr (o, hit) ↦
        rw (hit, upsert_output) (Points-update_where _ _ (λ _. refl) (λ _. refl) P i c.outputs a)
  ]

  pub sequence-upsert_output : c.sequence ≤ (upsert_output key size csize at c).1.sequence
  unfolding upsert_output
  sequence-upsert_output = ground arith

  pub entries-upsert_output : (upsert_output key size csize at c).1.entries ≡ c.entries
  unfolding upsert_output
  entries-upsert_output = ground arith

  pub upsert_output-ids :
      All (λ o. o.id ≤ c.sequence) c.outputs
      → All
          (λ o. o.id ≤ (upsert_output key size csize at c).1.sequence)
          (upsert_output key size csize at c).1.outputs
  unfolding upsert_output
  upsert_output-ids a = elim (Option-cases (find (has_output_id key) c.outputs)) [
    | inl miss ↦
        rw (miss, upsert_output)
          (All-append (λ o. o.id ≤ c.sequence + 1) c.outputs _
            (All-imp (λ o. o.id ≤ c.sequence) (λ o. o.id ≤ c.sequence + 1) c.outputs
              (λ o h. omega arith) a)
            (omega arith, tt))
    | inr (o, hit) ↦
        rw (hit, upsert_output)
          (ids-update_where _ _ (λ _. refl) (λ _. refl) c.sequence c.outputs a)
  ]

  pub upsert_output-Unlike :
      All (λ o. o.id ≤ c.sequence) c.outputs
      → Apart Unlike c.outputs
      → Apart Unlike (upsert_output key size csize at c).1.outputs
  unfolding upsert_output
  upsert_output-Unlike ids a = elim (Option-cases (find (has_output_id key) c.outputs)) [
    | inl miss ↦
        rw (miss, upsert_output)
          (Apart-append Unlike c.outputs _ a
            (fresh c.outputs ids (All-of_find-none (has_output_id key) c.outputs miss)))
    | inr (o, hit) ↦
        rw (hit, upsert_output) (Apart-update_where _ _ (λ _. refl) (λ _. refl) c.outputs a)
  ]
    where
      fresh :
          (xs : List OutputRow)
          → All (λ o. o.id ≤ c.sequence) xs
          → All (λ o. has_output_id key o ≡ false) xs
          → All (λ o. (o.id ≢ c.sequence + 1) × (o.output_id ≢ key)) xs
      fresh [] h k = tt
      fresh (x ∷ xs) h k = (
        (λ e. omega (arith, h.0), λ e. ground (arith, k.0, same_iff x.output_id key)),
        fresh xs h.1 k.1,
      )

  -- The returned id was handed out, and the rows that bear it are the output that was put.
  pub upsert_output-names :
      IsWellFormed c
      → ((upsert_output key size csize at c).0 ≤ (upsert_output key size csize at c).1.sequence)
        × Points
            (λ k. k ≡ key)
            (upsert_output key size csize at c).0
            (upsert_output key size csize at c).1.outputs
  unfolding upsert_output
  upsert_output-names w = elim (Option-cases (find (has_output_id key) c.outputs)) [
    | inl miss ↦
        rw (miss, upsert_output)
          (
            omega arith,
            All-append (λ o. o.id ≡ c.sequence + 1 → o.output_id ≡ key) c.outputs _
                (All-imp (λ o. o.id ≤ c.sequence) (λ o. o.id ≡ c.sequence + 1 → o.output_id ≡ key)
                  c.outputs (λ o h e. absurd (omega arith)) w.ids)
                (λ _. refl, tt),
          )
    | inr (o, hit) ↦
        rw (hit, upsert_output)
          (
            All-find (λ q. q.id ≤ c.sequence) (has_output_id key) c.outputs o w.ids hit,
            Points-update_where _ _ (λ _. refl) (λ _. refl) (λ k. k ≡ key) o.id c.outputs
                (Points-of_find key c.outputs o w.unlike hit),
          )
  ]
