-- ===== src/Expiry/Sort.antt =====
-- The order of byte strings, and sorting.
use mathlib.Core.Path.{subst}
use gocachez.Prelude.{
  ℕ, zero, suc, ◌≡◌, refl, Bool, true, false, ◌&&◌, ◌||◌, List, [], ◌∷◌, Bytes, take, select,
  length, same, ltb, ◌==◌, arith, Bool-cases, inl, inr, All, All-imp, ◌⊎◌, same_iff, same_refl,
}
use gocachez.Catalog.Tables.{Apart}
use gocachez.Catalog.{Key}
use gocachez.Expiry.{bytes_before, insert_by, sort_by, last_key}

pub bytes_before-irreflexive : (a : Bytes) → bytes_before a a ≡ false
unfolding bytes_before
bytes_before-irreflexive [] = refl
bytes_before-irreflexive (a ∷ as') = ground (arith, bytes_before-irreflexive as')

one_level :
    (x y z : ℕ) (p q r : Bool)
    → (ltb x y || ((x == y) && p)) ≡ true
    → (ltb y z || ((y == z) && q)) ≡ true
    → (p ≡ true → q ≡ true → r ≡ true)
    → (ltb x z || ((x == z) && r)) ≡ true
one_level x y z p q r h k f = ground (arith, f)

pub bytes_before_trans :
    (a b c : Bytes) → bytes_before a b ≡ true → bytes_before b c ≡ true → bytes_before a c ≡ true
unfolding bytes_before
bytes_before_trans a [] c h k = absurd (ground arith)
bytes_before_trans a (y ∷ b) [] h k = absurd (ground arith)
bytes_before_trans [] (y ∷ b) (z ∷ c) h k = refl
bytes_before_trans (x ∷ a) (y ∷ b) (z ∷ c) h k =
    one_level x y z _ _ _ h k (λ h' k'. bytes_before_trans a b c h' k')

pub bytes_before-total :
    (a b : Bytes) → bytes_before a b ≡ false → (same a b ≡ true) ⊎ (bytes_before b a ≡ true)
unfolding bytes_before same
bytes_before-total [] [] h = inl refl
bytes_before-total [] (y ∷ b) h = absurd (ground arith)
bytes_before-total (x ∷ a) [] h = inr refl
bytes_before-total (x ∷ a) (y ∷ b) h = elim (Bool-cases (x == y)) [
  | inl t ↦ elim (bytes_before-total a b (ground (arith, t))) [
    | inl e ↦ inl (ground (arith, t, e))
    | inr e ↦ inr (ground (arith, t, e))
  ]
  | inr f ↦ inr (ground (arith, f))
]

-- What sorting keeps.
module _ {ℓ} {A : Type ℓ} (before : A → A → Bool) where
  module _ {κ} (P : A → Type κ) where
    insert_by-All : (x : A) (ys : List A) → P x → All P ys → All P (insert_by before x ys)
    unfolding insert_by
    insert_by-All x [] h a = (h, tt)
    insert_by-All x (y ∷ ys) h a = elim (Bool-cases (before y x)) [
      | inl t ↦ rw (t, insert_by) (a.0, insert_by-All x ys h a.1)
      | inr f ↦ rw (f, insert_by) (h, a)
    ]

    pub sort_by-All : (xs : List A) → All P xs → All P (sort_by before xs)
    unfolding sort_by
    sort_by-All [] a = tt
    sort_by-All (x ∷ xs) a = insert_by-All x (sort_by before xs) a.0 (sort_by-All xs a.1)

    insert_by-All_back : (x : A) (ys : List A) → All P (insert_by before x ys) → P x × All P ys
    unfolding insert_by
    insert_by-All_back x [] a = a
    insert_by-All_back x (y ∷ ys) a = elim (Bool-cases (before y x)) [
      | inl t ↦
          let b : P y × All P (insert_by before x ys) = rw (t, insert_by) at a in
          let ih = insert_by-All_back x ys b.1 in (ih.0, (b.0, ih.1))
      | inr f ↦ rw (f, insert_by) at a
    ]

    pub sort_by-All_back : (xs : List A) → All P (sort_by before xs) → All P xs
    unfolding sort_by
    sort_by-All_back [] a = tt
    sort_by-All_back (x ∷ xs) a =
        let b = insert_by-All_back x (sort_by before xs) a in (b.0, sort_by-All_back xs b.1)

  insert_by-length :
      (p : A → Bool) (x : A) (ys : List A)
      → length (select p (insert_by before x ys)) ≡ length (select p (x ∷ ys))
  unfolding insert_by select
  insert_by-length p x [] = refl
  insert_by-length p x (y ∷ ys) = ground (arith, insert_by-length p x ys)

  -- Sorting keeps how many elements pass a test.
  pub sort_by-length :
      (p : A → Bool) (xs : List A) → length (select p (sort_by before xs)) ≡ length (select p xs)
  unfolding sort_by select
  sort_by-length p [] = refl
  sort_by-length p (x ∷ xs) =
      ground (arith, insert_by-length p x (sort_by before xs), sort_by-length p xs)

-- No element is before an earlier one.
abbrev pub Sorted : List Bytes → Type 0
Sorted = Apart (λ a b. bytes_before b a ≡ false)

before_less :
    (y x z : Bytes) → bytes_before y x ≡ false → bytes_before z y ≡ false → bytes_before z x ≡ false
before_less y x z h k = elim (Bool-cases (bytes_before z x)) [
  | inr f ↦ f
  | inl t ↦ elim (bytes_before-total z y k) [
    | inl e ↦ absurd (ground (arith, h, t, rw ((same_iff z y).0 e) at t))
    | inr e ↦ absurd (ground (arith, h, bytes_before_trans y z x e t))
  ]
]

insert_by-Sorted : (x : Bytes) (ys : List Bytes) → Sorted ys → Sorted (insert_by bytes_before x ys)
unfolding insert_by
insert_by-Sorted x [] s = (tt, tt)
insert_by-Sorted x (y ∷ ys) s = elim (Bool-cases (bytes_before y x)) [
  | inl t ↦
      let after : bytes_before x y ≡ false = elim (Bool-cases (bytes_before x y)) [
        | inr f ↦ f
        | inl u ↦ absurd (ground (arith, bytes_before_trans x y x u t, bytes_before-irreflexive x))
      ] in
      rw (t, insert_by)
        (
          insert_by-All bytes_before (λ b. bytes_before b y ≡ false) x ys after s.0,
          insert_by-Sorted x ys s.1,
        )
  | inr f ↦
      rw (f, insert_by)
        (
          (
            f,
            All-imp (λ z. bytes_before z y ≡ false) (λ z. bytes_before z x ≡ false) ys
                (λ z h. before_less y x z f h) s.0,
          ),
          s,
        )
]

pub sort_by-Sorted : (xs : List Bytes) → Sorted (sort_by bytes_before xs)
unfolding sort_by
sort_by-Sorted [] = tt
sort_by-Sorted (x ∷ xs) = insert_by-Sorted x (sort_by bytes_before xs) (sort_by-Sorted xs)

-- Whether a key is among the given ones.
unfoldable pub has_key : List Key → Key → Bool
has_key [] k = false
has_key (l ∷ ks) k = same k l || has_key ks k

-- Each element of a sorted list is among the first ones or after the last of them.
abbrev pub Covered : Key → List Key → Key → Type 0
Covered k ks x = (has_key (k ∷ ks) x ≡ true) ⊎ (bytes_before (last_key k ks) x ≡ true)

later_key : (k l : Key) (ls : List Key) (x : Key) → Covered l ls x → Covered k (l ∷ ls) x
unfolding has_key
later_key k l ls x (inl h) = inl (ground (arith, h))
later_key k l ls x (inr h) = inr h

take-Covered_from :
    (n : ℕ) (k : Key) (xs : List Key)
    → All (λ b. bytes_before b k ≡ false) xs
    → Sorted xs
    → All (Covered k (take n xs)) xs
unfolding has_key
take-Covered_from zero k xs a s =
    All-imp (λ b. bytes_before b k ≡ false) (Covered k []) xs
      (λ x h. elim (bytes_before-total x k h) [ inl e ↦ inl (ground (arith, e)) | inr e ↦ inr e ]) a
take-Covered_from (suc n) k [] a s = tt
take-Covered_from (suc n) k (x ∷ xs) a s = (
  inl (ground (arith, same_refl x)),
  All-imp (Covered x (take n xs)) (Covered k (x ∷ take n xs)) xs
      (λ y h. later_key k x (take n xs) y h) (take-Covered_from n x xs s.0 s.1),
)

abbrev CoveredBy : List Key → List Key → Type 0
CoveredBy [] xs = Unit
CoveredBy (k ∷ ks) xs = All (Covered k ks) xs

pub take-Covered :
    (n : ℕ) (xs : List Key) (k : Key) (ks : List Key)
    → Sorted xs
    → take n xs ≡ k ∷ ks
    → All (Covered k ks) xs
unfolding has_key
take-Covered zero xs k ks s e = absurd (ground arith)
take-Covered (suc n) [] k ks s e = absurd (ground arith)
take-Covered (suc n) (x ∷ xs) k ks s e =
    subst (λ l. CoveredBy l (x ∷ xs)) e
      (inl (ground (arith, same_refl x)), take-Covered_from n x xs s.0 s.1)
