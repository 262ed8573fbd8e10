-- ===== src/Protocol/Stream.antt =====
-- What reading the body to its end gives.
use gocachez.Prelude.{
  ℕ, zero, suc, ◌≤◌, ◌<◌, ◌≡◌, refl, ap, ◌∙◌, ◌⊎◌, inl, inr, true, false, some, [], ◌∷◌, ◌++◌,
  Bytes, take, drop, length, All, ◌==◌, arith,
}
use gocachez.Bytes.{has_byte}
use gocachez.Protocol.{
  quote, backslash, JsonStringReader, buffer_full, delimited, grow, slice_at, bytes, eof, read,
  read_all,
}

-- A byte of base64: neither a quote nor a backslash.
abbrev pub IsPlain : ℕ → Type 0
IsPlain b = ((b == quote) ≡ false) × ((b == backslash) ≡ false)

pub take-drop : (n : ℕ) (bs : Bytes) → take n bs ++ drop n bs ≡ bs
take-drop zero bs = refl
take-drop (suc n) [] = refl
take-drop (suc n) (b ∷ bs) = ap (◌∷◌ b) (take-drop n bs)

pub length-drop :
    (n : ℕ) (bs : Bytes) → (length bs == 0) ≡ false → length (drop (suc n) bs) < length bs
length-drop n [] h = absurd (ground arith)
length-drop n (b ∷ bs) h = omega (arith, drop_le n bs)
  where
    drop_le : (n : ℕ) (bs : Bytes) → length (drop n bs) ≤ length bs
    drop_le zero bs = omega arith
    drop_le (suc n) [] = omega arith
    drop_le (suc n) (b ∷ bs) = omega (arith, drop_le n bs)

pub plain-has_byte : (bs : Bytes) → All IsPlain bs → has_byte bs backslash ≡ false
unfolding has_byte
plain-has_byte [] a = refl
plain-has_byte (b ∷ bs) a = ground (arith, a.0, plain-has_byte bs a.1)

pub take-IsPlain : (n : ℕ) (bs : Bytes) → All IsPlain bs → All IsPlain (take n bs)
take-IsPlain zero bs a = tt
take-IsPlain (suc n) [] a = tt
take-IsPlain (suc n) (b ∷ bs) a = (a.0, take-IsPlain n bs a.1)

pub drop-IsPlain : (n : ℕ) (bs : Bytes) → All IsPlain bs → All IsPlain (drop n bs)
drop-IsPlain zero bs a = a
drop-IsPlain (suc n) [] a = tt
drop-IsPlain (suc n) (b ∷ bs) a = drop-IsPlain n bs a.1

-- The next slice is the whole body, or fills the buffer with the first part of it.
pub slice_at-plain :
    (cap : ℕ) (body rest : Bytes)
    → All IsPlain body
    → (slice_at cap (body ++ quote ∷ rest) ≡ delimited body rest)
      ⊎ ((cap ≤ length body)
          × (slice_at cap (body ++ quote ∷ rest)
              ≡ buffer_full (take cap body) (drop cap body ++ quote ∷ rest)))
unfolding slice_at grow
slice_at-plain zero body rest a = inr (omega arith, refl)
slice_at-plain (suc cap) [] rest a = inl (refl)
slice_at-plain (suc cap) (b ∷ body) rest a = elim (slice_at-plain cap body rest a.1) [
  | inl e ↦ inl (rw (a.0.0, e, slice_at) refl)
  | inr (le, e) ↦ inr (omega (arith, le), rw (a.0.0, e, slice_at) refl)
]

-- A reader in the middle of its string, and one that has seen the end of it.
abbrev pub midway : Bytes → Bytes → Bytes → JsonStringReader
midway pending body rest = record { input = body ++ quote ∷ rest; pending = pending; done = false }

abbrev pub ending : Bytes → Bytes → JsonStringReader
ending pending rest = record { input = rest; pending = pending; done = true }

module _ (cap n : ℕ) where
  pub read_all-bytes :
      (fuel : ℕ) (r r' r'' : JsonStringReader) (bs content : Bytes)
      → read cap (suc n) r ≡ (bytes bs, r')
      → read_all cap (suc n) fuel r' ≡ (some content, r'')
      → read_all cap (suc n) (suc fuel) r ≡ (some (bs ++ content), r'')
  unfolding read_all
  read_all-bytes fuel r r' r'' bs content h k = ground (arith, h, k)

  pub read_all-eof :
      (fuel : ℕ) (r r' : JsonStringReader)
      → read cap (suc n) r ≡ (eof, r')
      → read_all cap (suc n) (suc fuel) r ≡ (some [], r')
  unfolding read_all
  read_all-eof fuel r r' h = ground (arith, h)

  pub read-pending :
      (r : JsonStringReader)
      → (length r.pending == 0) ≡ false
      → read cap (suc n) r
        ≡ (bytes (take (suc n) r.pending), record r { pending = drop (suc n) r.pending })
  unfolding read
  read-pending r h = ground (arith, h)

  pub read_all-ending :
      (fuel : ℕ) (pending rest : Bytes)
      → length pending < fuel
      → read_all cap (suc n) fuel (ending pending rest) ≡ (some pending, ending [] rest)
  read_all-ending zero pending rest lt = absurd (omega arith)
  read_all-ending (suc fuel) [] rest lt =
      read_all-eof fuel (ending [] rest) (ending [] rest) (unfold read in ground arith)
  read_all-ending (suc fuel) (b ∷ pending) rest lt =
      let whole = b ∷ pending in
      read_all-bytes fuel (ending whole rest) (ending (drop (suc n) whole) rest) (ending [] rest)
        (take (suc n) whole) (drop (suc n) whole) (read-pending (ending whole rest) (ground arith))
        (read_all-ending fuel (drop (suc n) whole) rest
          (omega (arith, length-drop n whole (ground arith))))
      ∙ ap (λ (bs : Bytes). (some bs, ending [] rest)) (take-drop (suc n) whole)
