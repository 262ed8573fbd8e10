-- ===== src/Orphans/Shards.antt =====
-- The shard of an output, by its hex and by the order of the IDs.
use gocachez.Prelude.{
  ℕ, ◌+◌, ◌/◌, ◌%◌, ◌<◌, ◌≡◌, refl, sym, ap, ◌∙◌, Bool, true, not, ◌&&◌, ◌||◌, some, List, [], ◌∷◌,
  map, Bytes, All, All-imp, same, same_iff, same_refl, select, find, arith, Bool-cases, inl, inr,
  ◌==◌,
}
use gocachez.Prelude.Int.{ℤ, leb_ℤ}
use gocachez.Catalog.{Key, Catalog, OutputRow, has_output_id}
use gocachez.Expiry.{bytes_before}
use gocachez.Expiry.Select.{select-eq}
use gocachez.Files.{
  hex_digit, encode, output_shard, shard_prefix, last_output_shard, referenced_output_ids,
}
use gocachez.Orphans.{has_name}

-- An ID that is not empty, of bytes.
abbrev pub IsDigest : Key → Type 0
IsDigest [] = ⊥
IsDigest (b ∷ bs) = b < 256

pub output_shard-encode : (b : ℕ) (bs : Bytes) → output_shard (encode (b ∷ bs)) ≡ shard_prefix b
unfolding output_shard encode shard_prefix
output_shard-encode b bs = ground arith

hex_digit-injective : (m n : ℕ) → m < 16 → n < 16 → hex_digit m ≡ hex_digit n → m ≡ n
unfolding hex_digit
hex_digit-injective m n h k e = ground arith

pub shard_prefix-injective : (m n : ℕ) → m < 256 → n < 256 → shard_prefix m ≡ shard_prefix n → m ≡ n
unfolding shard_prefix encode
shard_prefix-injective m n h k e =
    let high : hex_digit (m / 16) ≡ hex_digit (n / 16) = cc e in
    let low : hex_digit (m % 16) ≡ hex_digit (n % 16) = cc e in
    omega (
      arith,
      hex_digit-injective (m / 16) (n / 16) (omega arith) (omega arith) high,
      hex_digit-injective (m % 16) (n % 16) (omega arith) (omega arith) low,
    )

-- The range of a shard, as `referencedOutputIDs` asks for it.
abbrev in_range : ℕ → Key → Bool
in_range shard key =
    not (bytes_before key (shard ∷ []))
    && (shard == last_output_shard || bytes_before key ((shard + 1) ∷ []))

in_range-head :
    (shard b : ℕ) (bs : Bytes) → shard < 256 → b < 256 → in_range shard (b ∷ bs) ≡ (b == shard)
unfolding bytes_before
in_range-head shard b [] h k = ground arith
in_range-head shard b (c ∷ bs) h k = ground arith

same_prefix : (m n : ℕ) → m < 256 → n < 256 → same (shard_prefix m) (shard_prefix n) ≡ (m == n)
same_prefix m n h k = elim (Bool-cases (same (shard_prefix m) (shard_prefix n))) [
  | inl t ↦
      let e = shard_prefix-injective m n h k ((same_iff (shard_prefix m) (shard_prefix n)).0 t) in
      rw t (ground (arith, e))
  | inr f ↦ elim (Bool-cases (m == n)) [
    | inr g ↦ rw (f, g) refl
    | inl t ↦
        let e : m ≡ n = ground arith in
        let s : same (shard_prefix m) (shard_prefix n) ≡ true =
          ap (λ x. same (shard_prefix x) (shard_prefix n)) e ∙ same_refl (shard_prefix n) in
        absurd (ground (arith, f, s))
  ]
]

in_shard :
    (shard : ℕ) (key : Key)
    → shard < 256
    → IsDigest key
    → in_range shard key ≡ same (output_shard (encode key)) (shard_prefix shard)
in_shard shard [] h d = absurd d
in_shard shard (b ∷ bs) h d =
    in_range-head shard b bs h d
    ∙ sym
        (ap (λ x. same x (shard_prefix shard)) (output_shard-encode b bs) ∙ same_prefix b shard d h)

-- The query of a shard finds, by comparing IDs as byte strings, exactly the outputs whose files are
-- in the shard's directory and that were accessed at the given time or later: for each of the 256
-- shards, the last one included, where no ID is empty.
pub referenced_output_ids_lem :
    (shard : ℕ) (at : ℤ) (c : Catalog)
    → shard < 256
    → All (λ o. IsDigest o.output_id) c.outputs
    → referenced_output_ids shard at c
      ≡ map
          (λ o. encode o.output_id)
          (select
            (λ o.
              same (output_shard (encode o.output_id)) (shard_prefix shard)
              && leb_ℤ at o.accessed_at)
            c.outputs)
unfolding referenced_output_ids
referenced_output_ids_lem shard at c h d = ap (map (λ o. encode o.output_id)) (
    select-eq _ _ c.outputs
      (All-imp _ _ c.outputs (λ o k. ground (arith, in_shard shard o.output_id h k)) d))

among :
    (b : ℕ) (bs : Bytes) (at : ℤ) (o : OutputRow) (xs : List OutputRow)
    → b < 256
    → leb_ℤ at o.accessed_at ≡ true
    → find (has_output_id (b ∷ bs)) xs ≡ some o
    → has_name
        (map
          (λ o. encode o.output_id)
          (select (λ o. in_range b o.output_id && leb_ℤ at o.accessed_at) xs))
        (encode (b ∷ bs))
      ≡ true
unfolding find select has_name
among b bs at o [] h fresh e = absurd (ground arith)
among b bs at o (x ∷ xs) h fresh e = elim (Bool-cases (has_output_id (b ∷ bs) x)) [
  | inl t ↦
      let this : x ≡ o = ground (arith, e, t) in
      let key : x.output_id ≡ b ∷ bs = (same_iff x.output_id (b ∷ bs)).0 t in
      let inside : in_range b x.output_id ≡ true =
        ap (in_range b) key ∙ in_range-head b b bs h h ∙ ground arith in
      let new : leb_ℤ at x.accessed_at ≡ true = ap (λ r. leb_ℤ at r.accessed_at) this ∙ fresh in
      let hit : (in_range b x.output_id && leb_ℤ at x.accessed_at) ≡ true =
        ground (arith, inside, new) in
      rw (hit, select, key, has_name, same_refl (encode (b ∷ bs))) refl
  | inr f ↦
      let ih = among b bs at o xs h fresh (ground (arith, e, f)) in
      elim (Bool-cases (in_range b x.output_id && leb_ℤ at x.accessed_at)) [
        | inl t ↦ rw (t, select, has_name, ih) (ground arith)
        | inr g ↦ rw (g, select) ih
      ]
]

-- An output of the catalog is among those of its shard.
pub referenced-has_name :
    (b : ℕ) (bs : Bytes) (at : ℤ) (c : Catalog) (o : OutputRow)
    → b < 256
    → find (has_output_id (b ∷ bs)) c.outputs ≡ some o
    → leb_ℤ at o.accessed_at ≡ true
    → has_name (referenced_output_ids b at c) (encode (b ∷ bs)) ≡ true
unfolding referenced_output_ids
referenced-has_name b bs at c o h e fresh = among b bs at o c.outputs h fresh e
