-- ===== src/Bytes.antt =====
-- The functions of Go's `bytes`, `strings`, `unicode/utf8` and `strconv` that the program calls, on
-- lists of bytes.
use gocachez.Prelude.{
  ℕ, zero, suc, ◌+◌, ◌-◌, ◌*◌, ◌^◌, Bool, true, false, ◌&&◌, ◌||◌, Option, none, some, List, [],
  ◌∷◌, Bytes, length, take, drop, ◌==◌, ltb, leb, if◌then◌else◌,
}
use gocachez.Prelude.Int.{ℤ, pos, negsuc}
use mathlib.Core.List.{reverse}

-- `bytes.HasPrefix` and `bytes.HasSuffix`
unfoldable pub has_prefix : Bytes → Bytes → Bool
has_prefix bs [] = true
has_prefix [] (p ∷ ps) = false
has_prefix (b ∷ bs) (p ∷ ps) = (b == p) && has_prefix bs ps

unfoldable pub has_suffix : Bytes → Bytes → Bool
has_suffix bs suffix = has_prefix (reverse bs) (reverse suffix)

-- `bytes.Contains`
unfoldable pub contains : Bytes → Bytes → Bool
contains [] sub = has_prefix [] sub
contains (b ∷ bs) sub = has_prefix (b ∷ bs) sub || contains bs sub

-- `bytes.ContainsAny`, for a set of ASCII characters
unfoldable pub has_byte : Bytes → ℕ → Bool
has_byte [] c = false
has_byte (b ∷ bs) c = (b == c) || has_byte bs c

unfoldable pub contains_any : Bytes → Bytes → Bool
contains_any [] chars = false
contains_any (b ∷ bs) chars = has_byte chars b || contains_any bs chars

-- `bytes.Cut` at one byte: what stands before it and after it.
unfoldable pub cut : Bytes → ℕ → Option (Bytes × Bytes)
cut [] sep = none
cut (b ∷ bs) sep =
    if b == sep
    then some ([], bs)
    else elim (cut bs sep) [ none ↦ none | some (line, rest) ↦ some (b ∷ line, rest) ]

-- `bytes.Split` at one byte: the first piece and the others.
unfoldable pub split_from : Bytes → ℕ → Bytes × List Bytes
split_from [] sep = ([], [])
split_from (b ∷ bs) sep =
    let (piece, pieces) = split_from bs sep in
    if b == sep then ([], piece ∷ pieces) else (b ∷ piece, pieces)

unfoldable pub split : Bytes → ℕ → List Bytes
unfolding split_from
split bs sep = let (piece, pieces) = split_from bs sep in piece ∷ pieces

-- The width in bytes of the white space that a text begins with, 0 if it begins with none: the
-- ASCII spaces and those of `unicode.IsSpace` in UTF-8.
unfoldable pub is_ascii_space : ℕ → Bool
is_ascii_space b = (leb 9 b && leb b 13) || b == 32

unfoldable pub is_space3 : ℕ → ℕ → ℕ → Bool
is_space3 a b c =
    ((a == 0xe1) && (b == 0x9a) && (c == 0x80))
    || ((a == 0xe2)
        && (b == 0x80)
        && ((leb 0x80 c && leb c 0x8a) || (c == 0xa8) || (c == 0xa9) || (c == 0xaf)))
    || ((a == 0xe2) && (b == 0x81) && (c == 0x9f))
    || ((a == 0xe3) && (b == 0x80) && (c == 0x80))

unfoldable pub is_space2 : ℕ → ℕ → Bool
is_space2 a b = (a == 0xc2) && ((b == 0x85) || (b == 0xa0))

unfoldable pub space_width : Bytes → ℕ
unfolding is_ascii_space is_space2 is_space3
space_width [] = 0
space_width (a ∷ []) = if is_ascii_space a then 1 else 0
space_width (a ∷ b ∷ []) = if is_ascii_space a then 1 else if is_space2 a b then 2 else 0
space_width (a ∷ b ∷ c ∷ bs) =
    if is_ascii_space a then 1 else if is_space2 a b then 2 else if is_space3 a b c then 3 else 0

-- The same at the end of a text, which is given reversed.
unfoldable pub last_space_width : Bytes → ℕ
unfolding is_ascii_space is_space2 is_space3
last_space_width [] = 0
last_space_width (c ∷ []) = if is_ascii_space c then 1 else 0
last_space_width (c ∷ b ∷ []) = if is_ascii_space c then 1 else if is_space2 b c then 2 else 0
last_space_width (c ∷ b ∷ a ∷ bs) =
    if is_ascii_space c then 1 else if is_space2 b c then 2 else if is_space3 a b c then 3 else 0

-- Drop what `width` measures, as long as it measures something. The fuel is the length.
unfoldable pub trim_by : (Bytes → ℕ) → ℕ → Bytes → Bytes
trim_by width zero bs = bs
trim_by width (suc fuel) bs =
    let rest = trim_by width fuel (drop (width bs) bs) in if width bs == 0 then bs else rest

-- `bytes.TrimSpace`
unfoldable pub trim_space : Bytes → Bytes
unfolding trim_by space_width last_space_width
trim_space bs =
    let left = trim_by space_width (length bs) bs in
    reverse (trim_by last_space_width (length left) (reverse left))

-- `bytes.TrimLeft` with a set of ASCII characters
unfoldable pub trim_left : Bytes → Bytes → Bytes
unfolding has_byte
trim_left [] chars = []
trim_left (b ∷ bs) chars =
    let rest = trim_left bs chars in if has_byte chars b then rest else b ∷ bs

-- `strings.TrimSuffix`
unfoldable pub trim_suffix : Bytes → Bytes → Bytes
unfolding has_suffix has_prefix
trim_suffix bs suffix = if has_suffix bs suffix then take (length bs - length suffix) bs else bs

-- `bytes.Fields`: `word` is the field being read, reversed.
unfoldable pub fields_from : ℕ → Bytes → Bytes → List Bytes
unfolding space_width
fields_from zero word bs = []
fields_from (suc fuel) word [] = if length word == 0 then [] else reverse word ∷ []
fields_from (suc fuel) word (b ∷ bs) =
    let width = space_width (b ∷ bs) in
    let inside = fields_from fuel (b ∷ word) bs in
    let after = fields_from fuel [] (drop width (b ∷ bs)) in
    if width == 0 then inside else if length word == 0 then after else reverse word ∷ after

unfoldable pub fields : Bytes → List Bytes
unfolding fields_from
fields bs = fields_from (length bs + 1) [] bs

-- `utf8.Valid`: how many continuation bytes are due, and the range of the next one.
pub record Utf8 : Type 0 where
  pub due : ℕ
  pub low : ℕ
  pub high : ℕ

unfoldable pub utf8_start : ℕ → Option Utf8
utf8_start b =
    if leb b 0x7f
    then some (record { due = 0; low = 0; high = 0 })
    else if leb 0xc2 b && leb b 0xdf
    then some (record { due = 1; low = 0x80; high = 0xbf })
    else if b == 0xe0
    then some (record { due = 2; low = 0xa0; high = 0xbf })
    else if b == 0xed
    then some (record { due = 2; low = 0x80; high = 0x9f })
    else if leb 0xe1 b && leb b 0xef
    then some (record { due = 2; low = 0x80; high = 0xbf })
    else if b == 0xf0
    then some (record { due = 3; low = 0x90; high = 0xbf })
    else if leb 0xf1 b && leb b 0xf3
    then some (record { due = 3; low = 0x80; high = 0xbf })
    else if b == 0xf4
    then some (record { due = 3; low = 0x80; high = 0x8f })
    else none

unfoldable pub utf8_next : Utf8 → ℕ → Option Utf8
unfolding utf8_start
utf8_next u b =
    if u.due == 0
    then utf8_start b
    else if leb u.low b && leb b u.high
    then some (record { due = u.due - 1; low = 0x80; high = 0xbf })
    else none

unfoldable pub utf8_from : Utf8 → Bytes → Bool
unfolding utf8_next
utf8_from u [] = u.due == 0
utf8_from u (b ∷ bs) = elim (utf8_next u b) [ none ↦ false | some u' ↦ utf8_from u' bs ]

unfoldable pub utf8_valid : Bytes → Bool
unfolding utf8_from
utf8_valid = utf8_from (record { due = 0; low = 0; high = 0 })

-- The value of a digit in a base up to 16.
unfoldable pub digit : ℕ → Option ℕ
digit c =
    if leb b'0' c && leb c b'9'
    then some (c - b'0')
    else if leb b'a' c && leb c b'f'
    then some (c - b'a' + 10)
    else if leb b'A' c && leb c b'F'
    then some (c - b'A' + 10)
    else none

unfoldable pub digits_from : ℕ → ℕ → Bytes → Option ℕ
unfolding digit
digits_from base n [] = some n
digits_from base n (c ∷ cs) = elim (digit c) [
  | none ↦ none
  | some d ↦ if ltb d base then digits_from base (n * base + d) cs else none
]

-- `strconv.ParseUint(s, base, 64)` and `strconv.ParseInt(s, base, 64)`; `none` is the error.
unfoldable pub parse_uint : ℕ → Bytes → Option ℕ
unfolding digits_from
parse_uint base [] = none
parse_uint base (c ∷ cs) = elim (digits_from base 0 (c ∷ cs)) [
  | none ↦ none
  | some n ↦ if ltb n (2 ^ 64) then some n else none
]

unfoldable pub parse_int : ℕ → Bytes → Option ℤ
unfolding parse_uint
parse_int base [] = none
parse_int base (c ∷ cs) =
    if c == b'-'
    then elim (parse_uint base cs) [
      | none ↦ none
      | some zero ↦ some (pos 0)
      | some (suc n) ↦ if ltb n (2 ^ 63) then some (negsuc n) else none
    ]
    else elim (parse_uint base (if c == b'+' then cs else c ∷ cs)) [
      | none ↦ none
      | some n ↦ if ltb n (2 ^ 63) then some (pos n) else none
    ]
