-- ===== src/Expiry/Select.antt =====
-- Rows that pass a test, and keys among others.
use mathlib.Core.Path.{subst}
use gocachez.Prelude.{
  ℕ, zero, suc, ◌+◌, ◌-◌, ◌≤◌, ◌≡◌, ◌≢◌, ◌⊎◌, refl, sym, Bool, true, false, not, ◌&&◌, ◌||◌, List,
  [], ◌∷◌, map, take, select, length, same, arith, Bool-cases, inl, inr, All, All-imp, same_iff,
  same_refl,
}
use gocachez.Catalog.{Key, delete_where}
use gocachez.Expiry.{bytes_before, sort_by, last_key}
use gocachez.Expiry.Sort.{has_key, sort_by-All_back}

module _ {A : Type 0} where
  -- Tests that agree on the elements select the same.
  pub select-eq :
      (p q : A → Bool) (xs : List A) → All (λ x. p x ≡ q x) xs → select p xs ≡ select q xs
  unfolding select
  select-eq p q [] a = refl
  select-eq p q (x ∷ xs) a = ground (arith, a.0, select-eq p q xs a.1)

  pub select-select :
      (p q : A → Bool) (xs : List A) → select p (select q xs) ≡ select (λ x. q x && p x) xs
  unfolding select
  select-select p q [] = refl
  select-select p q (x ∷ xs) = ground (arith, select-select p q xs)

  pub select_whole : (p : A → Bool) (xs : List A) → All (λ x. p x ≡ true) xs → select p xs ≡ xs
  unfolding select
  select_whole p [] a = refl
  select_whole p (x ∷ xs) a = ground (arith, a.0, select_whole p xs a.1)

  pub select-none : (p : A → Bool) (xs : List A) → select p xs ≡ [] → All (λ x. p x ≡ false) xs
  unfolding select
  select-none p [] e = tt
  select-none p (x ∷ xs) e = elim (Bool-cases (p x)) [
    | inl t ↦ absurd (ground arith)
    | inr f ↦ (f, select-none p xs (ground (arith, f)))
  ]

  pub select-empty : (p : A → Bool) (xs : List A) → All (λ x. p x ≡ false) xs → select p xs ≡ []
  unfolding select
  select-empty p [] a = refl
  select-empty p (x ∷ xs) a = ground (arith, a.0, select-empty p xs a.1)

  pub length-delete_where :
      (p : A → Bool) (xs : List A) → length (select p xs) + length (delete_where p xs) ≡ length xs
  unfolding delete_where select
  length-delete_where p [] = refl
  length-delete_where p (x ∷ xs) = ground (arith, length-delete_where p xs)

  pub length-select : (p : A → Bool) (xs : List A) → length (select p xs) ≤ length xs
  unfolding select
  length-select p [] = omega arith
  length-select p (x ∷ xs) = ground (arith, length-select p xs)

  -- What passes a test that the first `n` fail is among the others.
  pub length-select-take :
      (p : A → Bool) (n : ℕ) (xs : List A)
      → All (λ x. p x ≡ false) (take n xs)
      → length (select p xs) ≤ length xs - n
  unfolding select
  length-select-take p zero xs a = omega (arith, length-select p xs)
  length-select-take p (suc n) [] a = omega arith
  length-select-take p (suc n) (x ∷ xs) a = ground (arith, a.0, length-select-take p n xs a.1)

pub has_key-All :
    (P : Key → Type 0) (ks : List Key) (x : Key) → All P ks → has_key ks x ≡ true → P x
unfolding has_key
has_key-All P [] x a h = absurd (ground arith)
has_key-All P (k ∷ ks) x a h = elim (Bool-cases (same x k)) [
  | inl t ↦ subst P (sym ((same_iff x k).0 t)) a.0
  | inr f ↦ has_key-All P ks x a.1 (ground (arith, f))
]

pub last_key-All : (P : Key → Type 0) (k : Key) (ks : List Key) → All P (k ∷ ks) → P (last_key k ks)
last_key-All P k [] a = a.0
last_key-All P k (l ∷ ks) a = last_key-All P l ks a.1

pub take-All : {A : Type 0} (P : A → Type 0) (n : ℕ) (xs : List A) → All P xs → All P (take n xs)
take-All P zero xs a = tt
take-All P (suc n) [] a = tt
take-All P (suc n) (x ∷ xs) a = (a.0, take-All P n xs a.1)

module _ {A : Type 0} (key : A → Key) (p : A → Bool) (P : Key → Type 0) where
  pub map-select-All :
      (xs : List A) → All (λ x. p x ≡ true → P (key x)) xs → All P (map key (select p xs))
  unfolding select
  map-select-All [] a = tt
  map-select-All (x ∷ xs) a = elim (Bool-cases (p x)) [
    | inl t ↦ rw (t, select) (a.0 t, map-select-All xs a.1)
    | inr f ↦ rw (f, select) (map-select-All xs a.1)
  ]

  pub map-select-All_back :
      (xs : List A) → All P (map key (select p xs)) → All (λ x. p x ≡ true → P (key x)) xs
  unfolding select
  map-select-All_back [] a = tt
  map-select-All_back (x ∷ xs) a = elim (Bool-cases (p x)) [
    | inl t ↦
        let b : P (key x) × All P (map key (select p xs)) = rw (t, select) at a in
        (λ _. b.0, map-select-All_back xs b.1)
    | inr f ↦ (λ t. absurd (ground (arith, f)), map-select-All_back xs (rw (f, select) at a))
  ]

pub length-zero : {A : Type 0} (xs : List A) → length xs ≡ 0 → xs ≡ []
length-zero [] e = refl
length-zero (x ∷ xs) e = absurd (omega (arith, e))

pub List-cases :
    {A : Type 0} (xs : List A) → (xs ≡ []) ⊎ ((x : A) × (rest : List A) × (xs ≡ x ∷ rest))
List-cases [] = inl refl
List-cases (x ∷ xs) = inr (x, xs, refl)

pub has_key-head : (k : Key) (ks : List Key) → has_key (k ∷ ks) k ≢ false
unfolding has_key
has_key-head k ks h = ground (arith, h, same_refl k)

pub length-select-or :
    {A : Type 0} (p q : A → Bool) (xs : List A)
    → length (select (λ x. p x || q x) xs)
      ≡ length (select p xs) + length (select (λ x. not (p x) && q x) xs)
unfolding select
length-select-or p q [] = refl
length-select-or p q (x ∷ xs) = ground (arith, length-select-or p q xs)

pub delete_where-none :
    {A : Type 0} (p : A → Bool) (xs : List A) → select p xs ≡ [] → delete_where p xs ≡ xs
unfolding delete_where
delete_where-none p xs e =
    select_whole (λ x. not (p x)) xs
      (All-imp (λ x. p x ≡ false) _ xs (λ x f. ground (arith, f)) (select-none p xs e))

pub sort-nil : (xs : List Key) → sort_by bytes_before xs ≡ [] → xs ≡ []
unfolding sort_by
sort-nil [] e = refl
sort-nil (x ∷ xs) e = absurd (
    has_key-head x xs
      (sort_by-All_back bytes_before (λ y. has_key (x ∷ xs) y ≡ false) (x ∷ xs) (rw e tt)).0)

pub map-nil : {A B : Type 0} (f : A → B) (xs : List A) → map f xs ≡ [] → xs ≡ []
map-nil f [] e = refl
map-nil f (x ∷ xs) e = absurd (ground arith)

pub take-nil : {A : Type 0} (n : ℕ) (xs : List A) → take (suc n) xs ≡ [] → xs ≡ []
take-nil n [] e = refl
take-nil n (x ∷ xs) e = absurd (ground arith)
