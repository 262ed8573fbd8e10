-- ===== src/Protocol/Body.antt =====
-- The body of a request, read through a buffer of any size and in pieces of any size.
use gocachez.Prelude.{
  ℕ, zero, suc, ◌+◌, ◌<◌, ◌≡◌, refl, sym, ap, ◌∙◌, inl, inr, false, ◌&&◌, some, [], ◌∷◌, ◌++◌,
  append_assoc, Bytes, take, drop, length, length-append, length-take, All, ◌==◌, arith,
}
use gocachez.Protocol.{
  quote, JsonStringReader, buffer_full, delimited, slice_at, bytes, deliver, read_chunk, read,
  skip_whitespace, open_quote, new_json_string_reader, read_all,
}
use gocachez.Protocol.Stream.{
  IsPlain, take-drop, length-drop, plain-has_byte, take-IsPlain, drop-IsPlain, slice_at-plain,
  midway, ending, read_all-bytes, read_all-eof, read-pending, read_all-ending,
}

module _ (cap n : ℕ) (rest : Bytes) where
  -- A piece of a chunk without a backslash is delivered.
  deliver-plain :
      (chunk : Bytes) (r : JsonStringReader)
      → All IsPlain chunk
      → ((length chunk == 0) && r.done) ≡ false
      → deliver (suc n) chunk r
        ≡ (bytes (take (suc n) chunk), record r { pending = drop (suc n) chunk })
  unfolding deliver
  deliver-plain [] r a some_left = ground (arith, plain-has_byte [] tt, some_left)
  deliver-plain (b ∷ chunk) r a some_left = ground (arith, plain-has_byte (b ∷ chunk) a, some_left)

  -- A read with nothing pending, at the end of the string and before it.
  read-delimited :
      (body : Bytes)
      → slice_at (suc cap) (body ++ quote ∷ rest) ≡ delimited body rest
      → read (suc cap) (suc n) (midway [] body rest) ≡ deliver (suc n) body (ending [] rest)
  unfolding read read_chunk
  read-delimited body e = ground (arith, e)

  read-buffer_full :
      (body : Bytes)
      → slice_at (suc cap) (body ++ quote ∷ rest)
        ≡ buffer_full (take (suc cap) body) (drop (suc cap) body ++ quote ∷ rest)
      → read (suc cap) (suc n) (midway [] body rest)
        ≡ deliver (suc n) (take (suc cap) body) (midway [] (drop (suc cap) body) rest)
  unfolding read read_chunk
  read-buffer_full body e = ground (arith, e)

  read_all-midway :
      (fuel : ℕ) (pending body : Bytes)
      → All IsPlain body
      → length pending + length body < fuel
      → read_all (suc cap) (suc n) fuel (midway pending body rest)
        ≡ (some (pending ++ body), ending [] rest)
  read_all-midway zero pending body a lt = absurd (omega arith)
  read_all-midway (suc fuel) (b ∷ pending) body a lt =
      let whole = b ∷ pending in
      read_all-bytes (suc cap) n fuel (midway whole body rest)
        (midway (drop (suc n) whole) body rest) (ending [] rest) (take (suc n) whole)
        (drop (suc n) whole ++ body)
        (read-pending (suc cap) n (midway whole body rest) (ground arith))
        (read_all-midway fuel (drop (suc n) whole) body a
          (omega (arith, length-drop n whole (ground arith))))
      ∙ ap (λ (bs : Bytes). (some bs, ending [] rest))
          (sym (append_assoc (take (suc n) whole) (drop (suc n) whole) body)
            ∙ ap (λ (bs : Bytes). bs ++ body) (take-drop (suc n) whole))
  read_all-midway (suc fuel) [] body a lt = elim (slice_at-plain (suc cap) body rest a) [
    | inl e ↦ by_length body a lt e
    | inr (le, e) ↦
        let chunk = take (suc cap) body in
        let later = drop (suc cap) body in
        let room : (length chunk == 0) ≡ false = ground (arith, length-take (suc cap) body, le) in
        read_all-bytes (suc cap) n fuel (midway [] body rest)
          (midway (drop (suc n) chunk) later rest) (ending [] rest) (take (suc n) chunk)
          (drop (suc n) chunk ++ later)
          (read-buffer_full body e
            ∙ deliver-plain chunk _ (take-IsPlain (suc cap) body a) (ground (arith, room)))
          (read_all-midway fuel (drop (suc n) chunk) later (drop-IsPlain (suc cap) body a) (
            omega (
              arith,
              length-drop n chunk room,
              length-append chunk later,
              ap length (take-drop (suc cap) body),
            )))
        ∙ ap (λ (bs : Bytes). (some bs, ending [] rest))
            (sym (append_assoc (take (suc n) chunk) (drop (suc n) chunk) later)
              ∙ ap (λ (bs : Bytes). bs ++ later) (take-drop (suc n) chunk)
              ∙ take-drop (suc cap) body)
  ]
    where
      by_length :
          (body : Bytes)
          → All IsPlain body
          → 0 + length body < suc fuel
          → slice_at (suc cap) (body ++ quote ∷ rest) ≡ delimited body rest
          → read_all (suc cap) (suc n) (suc fuel) (midway [] body rest)
            ≡ (some body, ending [] rest)
      by_length [] a lt e =
          read_all-eof (suc cap) n fuel (midway [] [] rest) (ending [] rest)
            (read-delimited [] e ∙ (unfold deliver in ground (arith, plain-has_byte [] tt)))
      by_length (b ∷ body) a lt e =
          let whole = b ∷ body in
          read_all-bytes (suc cap) n fuel (midway [] whole rest) (ending (drop (suc n) whole) rest)
            (ending [] rest) (take (suc n) whole) (drop (suc n) whole)
            (read-delimited whole e ∙ deliver-plain whole _ a (ground arith))
            (read_all-ending (suc cap) n fuel (drop (suc n) whole) rest
              (omega (arith, length-drop n whole (ground arith))))
          ∙ ap (λ (bs : Bytes). (some bs, ending [] rest)) (take-drop (suc n) whole)

skip_whitespace-quote : (bs : Bytes) → skip_whitespace (quote ∷ bs) ≡ some (quote ∷ bs)
unfolding skip_whitespace
skip_whitespace-quote bs = refl

-- The body survives every way of cutting it up: where it is a JSON string without quotes and
-- backslashes inside, as base64 is, a reader opened on it gives exactly the bytes between the
-- quotes and then the end, and leaves the input right behind the closing quote, whatever the size
-- of the buffer and of the pieces that are read, as long as neither is zero. One more read than the
-- body has bytes is enough.
pub read_all-new_json_string_reader :
    (cap n fuel : ℕ) (body rest : Bytes)
    → All IsPlain body
    → length body < fuel
    → (r : JsonStringReader) × (new_json_string_reader (quote ∷ body ++ quote ∷ rest) ≡ some r)
      × (read_all (suc cap) (suc n) fuel r ≡ (some body, ending [] rest))
unfolding new_json_string_reader open_quote
read_all-new_json_string_reader cap n fuel body rest a lt = (
  midway [] body rest,
  ap open_quote (skip_whitespace-quote (body ++ quote ∷ rest)),
  read_all-midway cap n rest fuel [] body a (omega (arith, lt)),
)
