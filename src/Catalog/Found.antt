-- ===== src/Catalog/Found.antt =====
-- How the rows that a lookup finds change with the tables.
use gocachez.Prelude.{
  ◌≡◌, refl, Bool, true, false, none, some, List, [], ◌∷◌, ◌++◌, All-imp, find, select, arith,
  Bool-cases, inl, inr,
}
use gocachez.Catalog.{update_where, delete_where}
use gocachez.Catalog.Tables.{Apart, All-of_find-none, find-none_of_All, All-delete_where}

module _ {A : Type 0} (q : A → Bool) where
  pub find-append_other : (xs : List A) (y : A) → q y ≡ false → find q (xs ++ y ∷ []) ≡ find q xs
  unfolding find
  find-append_other [] y f = rw f refl
  find-append_other (x ∷ xs) y f = ground (arith, find-append_other xs y f)

  pub find-update_where_other :
      (p : A → Bool) (f : A → A) (xs : List A)
      → ((x : A) → p x ≡ true → (q x ≡ false) × (q (f x) ≡ false))
      → find q (update_where p f xs) ≡ find q xs
  unfolding find update_where
  find-update_where_other p f [] h = refl
  find-update_where_other p f (x ∷ xs) h = elim (Bool-cases (p x)) [
    | inl t ↦ rw (t, (h x t).0, (h x t).1) (find-update_where_other p f xs h)
    | inr n ↦ rw n (ground (arith, find-update_where_other p f xs h))
  ]

  pub find-delete_where-none :
      (p : A → Bool) (xs : List A) → find q xs ≡ none → find q (delete_where p xs) ≡ none
  find-delete_where-none p xs n =
      find-none_of_All q (delete_where p xs)
        (All-delete_where (λ x. q x ≡ false) p xs (All-of_find-none q xs n))

  pub find-delete_where_kept :
      (p : A → Bool) (xs : List A) (x : A)
      → find q xs ≡ some x
      → p x ≡ false
      → find q (delete_where p xs) ≡ some x
  unfolding find delete_where select
  find-delete_where_kept p [] x e f = absurd (ground arith)
  find-delete_where_kept p (y ∷ xs) x e f = elim (Bool-cases (q y)) [
    | inl t ↦
        let this : y ≡ x = ground (arith, e, t) in
        let kept : p y ≡ false = rw this f in rw kept (rw t (ground (arith, this)))
    | inr n ↦
        let ih = find-delete_where_kept p xs x (ground (arith, e, n)) f in ground (arith, n, ih)
  ]

  -- Where at most one row passes the test, deleting the row that is found leaves none.
  pub find-delete_where_gone :
      (R : A → A → Type 0)
      → ((x y : A) → R x y → q x ≡ true → q y ≡ false)
      → (p : A → Bool) (xs : List A) (x : A) → Apart R xs
      → find q xs ≡ some x
      → p x ≡ true
      → find q (delete_where p xs) ≡ none
  unfolding find delete_where select
  find-delete_where_gone R only p [] x a e t = absurd (ground arith)
  find-delete_where_gone R only p (y ∷ xs) x a e t = elim (Bool-cases (q y)) [
    | inl h ↦
        let this : y ≡ x = ground (arith, e, h) in
        let doomed : p y ≡ true = rw this t in
        let no_other = All-imp (R y) (λ z. q z ≡ false) xs (λ z r. only y z r h) a.0 in
        rw doomed (find-delete_where-none p xs (find-none_of_All q xs no_other))
    | inr n ↦
        let ih = find-delete_where_gone R only p xs x a.1 (ground (arith, e, n)) t in
        ground (arith, n, ih)
  ]
