-- ===== src/Protocol.antt =====
-- The request stream of protocol.go: the JSON string that carries a body, read in pieces. The
-- documented behaviour of bufio's ReadSlice is `slice_at`.
pub mod Stream
pub mod Body
use gocachez.Prelude.{
  ℕ, zero, suc, ◌+◌, Bool, true, false, not, ◌&&◌, ◌||◌, Option, none, some, List, [], ◌∷◌, ◌++◌,
  Bytes, take, drop, length, ◌==◌, if◌then◌else◌,
}
use gocachez.Bytes.{has_byte}

-- `"` and `\`
abbrev pub quote : ℕ
quote = 34

abbrev pub backslash : ℕ
backslash = 92

-- `jsonStringReader`, with the bytes that its buffered reader has yet to give.
pub record JsonStringReader : Type 0 where
  pub input : Bytes
  pub pending : Bytes
  pub done : Bool

-- ReadSlice up to a quote, which is left out here: the input ended before one; the buffer filled up
-- before one; or the slice before it.
pub data Slice : Type 0 where
  ended : Slice
  buffer_full delimited : Bytes → Bytes → Slice

unfoldable pub grow : ℕ → Slice → Slice
grow b ended = ended
grow b (buffer_full chunk rest) = buffer_full (b ∷ chunk) rest
grow b (delimited chunk rest) = delimited (b ∷ chunk) rest

-- With room for `cap` bytes in the buffer.
unfoldable pub slice_at : ℕ → Bytes → Slice
slice_at zero bs = buffer_full [] bs
slice_at (suc cap) [] = ended
slice_at (suc cap) (b ∷ bs) = if b == quote then delimited [] bs else grow b (slice_at cap bs)

-- What Read returns: some bytes, io.EOF, or another error.
pub data Read : Type 0 where
  bytes : Bytes → Read
  eof failed : Read

-- The end of Read: the chunk is checked, copied as far as there is room, and the rest kept.
unfoldable pub deliver : ℕ → Bytes → JsonStringReader → Read × JsonStringReader
deliver room chunk r = if has_byte chunk backslash then (failed, r) else (
  if (length (take room chunk) == 0) && r.done then eof else bytes (take room chunk),
  record r { pending = drop room chunk },
)

unfoldable pub read_chunk : ℕ → Slice → JsonStringReader → Read × JsonStringReader
read_chunk room ended r = (failed, record r { input = [] })
read_chunk room (buffer_full chunk rest) r = deliver room chunk (record r { input = rest })
read_chunk room (delimited chunk rest) r =
    deliver room chunk (record r { input = rest; done = true })

-- `jsonStringReader.Read` into `room` bytes.
unfoldable pub read : ℕ → ℕ → JsonStringReader → Read × JsonStringReader
read cap room r =
    if room == 0
    then (bytes [], r)
    else if not (length r.pending == 0)
    then (bytes (take room r.pending), record r { pending = drop room r.pending })
    else if r.done
    then (eof, r)
    else read_chunk room (slice_at cap r.input) r

-- `skipWhitespace`: what is left, or none where the input ends.
unfoldable pub skip_whitespace : Bytes → Option Bytes
skip_whitespace [] = none
skip_whitespace (b ∷ bs) =
    if (b == 32) || (b == 10) || (b == 13) || (b == 9) then skip_whitespace bs else some (b ∷ bs)

unfoldable pub open_quote : Option Bytes → Option JsonStringReader
open_quote none = none
open_quote (some []) = none
open_quote (some (b ∷ bs)) =
    if b == quote then some (record { input = bs; pending = []; done = false }) else none

-- `newJSONStringReader`
unfoldable pub new_json_string_reader : Bytes → Option JsonStringReader
new_json_string_reader input = open_quote (skip_whitespace input)

abbrev pub also : Bytes → Option Bytes → Option Bytes
also bs none = none
also bs (some cs) = some (bs ++ cs)

-- Reading until io.EOF, as io.Copy does, with the same room each time.
unfoldable pub read_all : ℕ → ℕ → ℕ → JsonStringReader → Option Bytes × JsonStringReader
read_all cap room zero r = (none, r)
read_all cap room (suc fuel) r =
    let (got, r') = read cap room r in
    elim got [
      | failed ↦ (none, r')
      | eof ↦ (some [], r')
      | bytes bs ↦ let (more, r'') = read_all cap room fuel r' in (also bs more, r'')
    ]
