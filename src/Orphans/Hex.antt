-- ===== src/Orphans/Hex.antt =====
-- The hex of IDs, and the output that a live file is named for.
use gocachez.Prelude.{
  ℕ, ◌+◌, ◌*◌, ◌/◌, ◌%◌, ◌<◌, ◌≡◌, ◌≢◌, ◌↔◌, refl, sym, ap, ◌∙◌, false, some, [], ◌∷◌, ◌++◌, Bytes,
  All, same, same_refl, arith, Bool-cases, Option-cases, inl, inr, ◌==◌,
}
use gocachez.Bytes.{digit, cut}
use gocachez.Catalog.{Key}
use gocachez.Files.{hex_digit, encode, decode, live_output_id}

digit-hex_digit : (n : ℕ) → n < 16 → digit (hex_digit n) ≡ some n
unfolding digit hex_digit
digit-hex_digit n h = ground arith

-- The hex of an ID decodes to the ID.
pub decode-encode : (bs : Bytes) → All (λ b. b < 256) bs → decode (encode bs) ≡ some bs
unfolding encode decode
decode-encode [] a = refl
decode-encode (b ∷ bs) a =
    let whole : b / 16 * 16 + b % 16 ≡ b = omega arith in
    rw
      (
        decode,
        digit-hex_digit (b / 16) (omega (arith, a.0)),
        digit-hex_digit (b % 16) (omega arith),
        decode-encode bs a.1,
      )
      (ap (λ x. some (x ∷ bs)) whole)

hex_digit-dash : (n : ℕ) → (hex_digit n == b'-') ≡ false
unfolding hex_digit
hex_digit-dash n = ground arith

cut-append :
    (key : Key) (rest : Bytes) → cut (encode key ++ b'-' ∷ rest) b'-' ≡ some (encode key, rest)
unfolding encode cut
cut-append [] rest = refl
cut-append (b ∷ bs) rest =
    rw (hex_digit-dash (b / 16), hex_digit-dash (b % 16), cut-append bs rest) refl

cut_whole : (bs : Bytes) (sep : ℕ) (x y : Bytes) → cut bs sep ≡ some (x, y) → bs ≡ x ++ sep ∷ y
unfolding cut
cut_whole [] sep x y e = absurd (ground arith)
cut_whole (b ∷ bs) sep x y e = elim (Bool-cases (b == sep)) [
  | inl t ↦
      let hx : x ≡ [] = ground (arith, e, t) in
      let hy : y ≡ bs = ground (arith, e, t) in
      let hb : b ≡ sep = ground (arith, t) in rw (hx, hy, hb) refl
  | inr f ↦ elim (Option-cases (cut bs sep)) [
    | inl n ↦ absurd (ground (arith, e, f, n))
    | inr ((x', y'), q) ↦
        let hx : x ≡ b ∷ x' = ground (arith, e, f, q) in
        let hy : y ≡ y' = ground (arith, e, f, q) in
        rw (hx, hy) (ap (λ (l : Bytes). b ∷ l) (cut_whole bs sep x' y' q))
  ]
]

encode-nil : (key : Key) → encode key ≡ [] → key ≡ []
unfolding encode
encode-nil [] e = refl
encode-nil (b ∷ bs) e = absurd (ground arith)

-- Any name that is taken for an output's is the ID, a dash and the rest.
live_output_id_whole :
    (base id : Bytes)
    → live_output_id base ≡ id
    → id ≢ []
    → (rest : Bytes) × (base ≡ id ++ b'-' ∷ rest)
unfolding live_output_id
live_output_id_whole base id e h = elim (Option-cases (cut base b'-')) [
  | inl n ↦ absurd (h (sym e ∙ rw (live_output_id, n) refl))
  | inr ((x, rest), q) ↦ elim (Option-cases (decode x)) [
    | inl n ↦ absurd (h (sym e ∙ rw (live_output_id, q, n) refl))
    | inr (key, d) ↦ elim (Bool-cases (same (encode key) x)) [
      | inr f ↦ absurd (h (sym e ∙ rw (live_output_id, q, d, f) refl))
      | inl t ↦
          let this : x ≡ id = sym (rw (live_output_id, q, d, t) refl) ∙ e in
          (rest, rw (sym this) (cut_whole base b'-' x rest q))
    ]
  ]
]

-- A live file is taken for an output's exactly if its name is the hex of the output's ID, in lower
-- case, up to its first dash.
pub live_output_id-eq-encode_iff :
    (key : Key) (base : Bytes)
    → key ≢ []
    → All (λ b. b < 256) key
    → (live_output_id base ≡ encode key) ↔ ((rest : Bytes) × (base ≡ encode key ++ b'-' ∷ rest))
unfolding live_output_id
live_output_id-eq-encode_iff key base h a = (
  λ e. live_output_id_whole base (encode key) e (λ n. h (encode-nil key n)),
  λ (rest, e).
      ap live_output_id e
      ∙ rw (live_output_id, cut-append key rest, decode-encode key a, same_refl (encode key)) refl,
)
