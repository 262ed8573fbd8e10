-- ===== src/Expiry/Rows.antt =====
-- What one transaction of an expiry leaves.
use gocachez.Prelude.{
  ℕ, ◌+◌, ◌≡◌, refl, sym, ap, Bool, true, ◌&&◌, Option, some, List, [], ◌∷◌, select, length, arith,
}
use gocachez.Prelude.Int.{ℤ, ltb_ℤ}
use gocachez.Catalog.{Key, delete_where}
use gocachez.Expiry.{Batch, delete_stale_by_key, Transaction, is_doomed, delete_keys}
use gocachez.Expiry.Sort.{has_key}
use gocachez.Expiry.Select.{length-delete_where}

-- A transaction in which nothing fails.
abbrev pub smooth : Transaction
smooth = record { begins = true; prepares = true; deletes = λ _. true; commits = true }

module _ {A : Type 0} (key : A → Key) (at : A → ℤ) (cutoff : ℤ) where
  -- The rows that a batch of keys takes.
  abbrev pub is_taken : List Key → A → Bool
  is_taken ks r = ltb_ℤ (at r) cutoff && has_key ks (key r)

  delete-taken :
      (k : Key) (ks : List Key) (rows : List A)
      → delete_where (is_taken ks) (delete_where (is_doomed key at cutoff k) rows)
        ≡ delete_where (is_taken (k ∷ ks)) rows
  unfolding delete_where select has_key
  delete-taken k ks [] = refl
  delete-taken k ks (r ∷ rows) = ground (arith, delete-taken k ks rows)

  taken-nothing : (rows : List A) → delete_where (is_taken []) rows ≡ rows
  unfolding delete_where select has_key
  taken-nothing [] = refl
  taken-nothing (r ∷ rows) = ground (arith, taken-nothing rows)

  -- What a batch of keys leaves when nothing fails.
  pub record Done (ks : List Key) (rows : List A) (r : Option (ℕ × List A)) : Type 0 where
    pub removed : ℕ
    pub result : r ≡ some (removed, delete_where (is_taken ks) rows)
    pub balance : removed + length (delete_where (is_taken ks) rows) ≡ length rows

  delete_keys-Done :
      (ks : List Key) (n : ℕ) (rows : List A)
      → Done ks rows (delete_keys key at cutoff (λ _. true) ks n rows)
  unfolding delete_keys
  delete_keys-Done [] n rows = record {
    removed = 0;
    result = ap (λ x. some (0, x)) (sym (taken-nothing rows));
    balance = omega (arith, ap length (taken-nothing rows));
  }
  delete_keys-Done (k ∷ ks) n rows =
      let rows' = delete_where (is_doomed key at cutoff k) rows in
      let ih = delete_keys-Done ks (n + 1) rows' in
      let gone = length (select (is_doomed key at cutoff k) rows) in
      record {
        removed = gone + ih.removed;
        result = rw ih.result (ap (λ x. some (gone + ih.removed, x)) (delete-taken k ks rows));
        balance = omega (
          arith,
          ih.balance,
          length-delete_where (is_doomed key at cutoff k) rows,
          ap length (delete-taken k ks rows),
        );
      }

  pub delete_stale_by_key-Done :
      (ks : List Key) (rows : List A)
      → Done ks rows (delete_stale_by_key key at cutoff smooth ks rows)
  unfolding delete_stale_by_key
  delete_stale_by_key-Done ks rows =
      let d = delete_keys-Done ks 0 rows in
      record { removed = d.removed; result = rw d.result refl; balance = d.balance }

-- A round in which nothing fails and nobody else writes.
abbrev pub quiet : Batch
quiet = record { before = []; reads = true; between = []; transaction = smooth }
