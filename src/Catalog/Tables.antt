-- ===== src/Catalog/Tables.antt =====
-- Facts about tables that hold whatever the rows are: what UPDATE and DELETE keep.
use mathlib.Core.Option
use gocachez.Prelude.{
  ◌≡◌, refl, Bool, true, false, not, none, some, List, [], ◌∷◌, ◌++◌, inl, inr, All, All-select,
  All-append, All-imp, select, find, if◌then◌else◌, Bool-cases, arith,
}
use gocachez.Catalog.{update_where, delete_where}

module _ {ℓ κ} {A : Type ℓ} (P : A → Type κ) where
  pub All-update_where :
      (p : A → Bool) (f : A → A) (xs : List A)
      → ((x : A) → p x ≡ true → P x → P (f x))
      → All P xs
      → All P (update_where p f xs)
  unfolding update_where
  All-update_where p f [] h a = tt
  All-update_where p f (x ∷ xs) h a = (
    elim (Bool-cases (p x)) [ inl t ↦ rw t (h x t a.0) | inr e ↦ rw e a.0 ],
    All-update_where p f xs h a.1,
  )

  pub All-update_where-All :
      (p : A → Bool) (f : A → A) (xs : List A)
      → ((x : A) → p x ≡ true → P (f x))
      → ((x : A) → p x ≡ false → P x)
      → All P (update_where p f xs)
  unfolding update_where
  All-update_where-All p f [] h k = tt
  All-update_where-All p f (x ∷ xs) h k = (
    elim (Bool-cases (p x)) [ inl t ↦ rw t (h x t) | inr e ↦ rw e (k x e) ],
    All-update_where-All p f xs h k,
  )

  pub All-delete_where : (p : A → Bool) (xs : List A) → All P xs → All P (delete_where p xs)
  unfolding delete_where
  All-delete_where p xs a = All-select P (λ r. not (p r)) xs a

-- Any two rows of the table are apart.
abbrev pub Apart {ℓ κ} : {A : Type ℓ} → (A → A → Type κ) → List A → Type κ
Apart R [] = Unit
Apart R (x ∷ xs) = All (R x) xs × Apart R xs

module _ {ℓ κ} {A : Type ℓ} (R : A → A → Type κ) where
  pub Apart-append :
      (xs : List A) (y : A) → Apart R xs → All (λ x. R x y) xs → Apart R (xs ++ y ∷ [])
  Apart-append [] y a h = (tt, tt)
  Apart-append (x ∷ xs) y a h =
      (All-append (R x) xs (y ∷ []) a.0 (h.0, tt), Apart-append xs y a.1 h.1)

  pub Apart-delete_where : (p : A → Bool) (xs : List A) → Apart R xs → Apart R (delete_where p xs)
  unfolding delete_where select
  Apart-delete_where p [] a = tt
  Apart-delete_where p (x ∷ xs) a = elim (Bool-cases (p x)) [
    | inl t ↦ rw (t, delete_where) (Apart-delete_where p xs a.1)
    | inr f ↦
        rw (f, delete_where) (All-select (R x) (λ r. not (p r)) xs a.0, Apart-delete_where p xs a.1)
  ]

-- A test that no row fails keeps the first row found.
module _ {ℓ} {A : Type ℓ} (q : A → Bool) where
  pub find-update_where :
      (p : A → Bool) (f : A → A) (xs : List A)
      → ((x : A) → q (f x) ≡ q x)
      → find q (update_where p f xs) ≡ Option.map (λ r. if p r then f r else r) (find q xs)
  unfolding update_where find
  find-update_where p f [] h = refl
  find-update_where p f (x ∷ xs) h = ground (arith, h x, find-update_where p f xs h)

  pub find-append_hit :
      (xs : List A) (y x : A) → find q xs ≡ some x → find q (xs ++ y ∷ []) ≡ some x
  unfolding find
  find-append_hit [] y x h = ground arith
  find-append_hit (z ∷ xs) y x h = ground (arith, find-append_hit xs y x)

  pub find-append_miss :
      (xs : List A) (y : A) → find q xs ≡ none → q y ≡ true → find q (xs ++ y ∷ []) ≡ some y
  unfolding find
  find-append_miss [] y h e = ground arith
  find-append_miss (z ∷ xs) y h e = ground (arith, find-append_miss xs y)

  pub find-delete_where_self : (xs : List A) → find q (delete_where q xs) ≡ none
  unfolding find delete_where select
  find-delete_where_self [] = refl
  find-delete_where_self (x ∷ xs) = ground (arith, find-delete_where_self xs)

  pub find-delete_where_ne :
      (p : A → Bool) (xs : List A)
      → ((x : A) → q x ≡ true → p x ≡ false)
      → find q (delete_where p xs) ≡ find q xs
  unfolding find delete_where select
  find-delete_where_ne p [] h = refl
  find-delete_where_ne p (x ∷ xs) h = ground (arith, h x, find-delete_where_ne p xs h)

  pub find_test : (xs : List A) (x : A) → find q xs ≡ some x → q x ≡ true
  unfolding find
  find_test [] x h = ground arith
  find_test (y ∷ xs) x h = ground (arith, find_test xs x)

  pub All-of_find-none : (xs : List A) → find q xs ≡ none → All (λ x. q x ≡ false) xs
  unfolding find
  All-of_find-none [] h = tt
  All-of_find-none (x ∷ xs) h = elim (Bool-cases (q x)) [
    | inl t ↦ absurd (ground arith)
    | inr f ↦ (f, All-of_find-none xs (ground arith))
  ]

  pub find-none_of_All : (xs : List A) → All (λ x. q x ≡ false) xs → find q xs ≡ none
  unfolding find
  find-none_of_All [] a = refl
  find-none_of_All (x ∷ xs) a = ground (arith, find-none_of_All xs a.1)

  pub find-update_where_self :
      (f : A → A) (xs : List A) (x : A)
      → ((y : A) → q y ≡ true → q (f y) ≡ true)
      → find q xs ≡ some x
      → find q (update_where q f xs) ≡ some (f x)
  unfolding find update_where
  find-update_where_self f [] x h e = ground arith
  find-update_where_self f (y ∷ xs) x h e = elim (Bool-cases (q y)) [
    | inl t ↦ rw (t, h y t) (ground (arith, t))
    | inr n ↦ rw (n, n) (find-update_where_self f xs x h (ground (arith, n)))
  ]

-- An update changes nothing where it fixes the rows that it matches.
abbrev pub Fixes {ℓ} : {A : Type ℓ} → (A → Bool) → (A → A) → A → Type ℓ
Fixes p f r = p r ≡ true → f r ≡ r

module _ {ℓ} {A : Type ℓ} (p : A → Bool) (f : A → A) where
  pub update_where_fixed : (xs : List A) → All (Fixes p f) xs → update_where p f xs ≡ xs
  unfolding update_where
  update_where_fixed [] a = refl
  update_where_fixed (x ∷ xs) a = elim (Bool-cases (p x)) [
    | inl t ↦ rw t (cc (a.0 t, update_where_fixed xs a.1))
    | inr n ↦ rw n (cc (update_where_fixed xs a.1))
  ]

  pub Fixes-update_where :
      (xs : List A) → ((x : A) → f (f x) ≡ f x) → All (Fixes p f) (update_where p f xs)
  Fixes-update_where xs h =
      All-update_where-All (Fixes p f) p f xs (λ x _ _. h x) (λ x n t. absurd (ground arith))

  pub Fixes-append :
      (xs : List A) (y : A) → find p xs ≡ none → f y ≡ y → All (Fixes p f) (xs ++ y ∷ [])
  Fixes-append xs y miss h =
      All-append (Fixes p f) xs (y ∷ [])
        (All-imp (λ x. p x ≡ false) (Fixes p f) xs (λ x n t. absurd (ground arith))
          (All-of_find-none p xs miss))
        (λ _. h, tt)
