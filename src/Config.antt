-- ===== src/Config.antt =====
-- config.go with `parseSize` and `parseAge` of util.go: where a setting comes from. The libraries
-- are arguments: Go's strconv and time for numbers and durations, the flag and JSON parsers, and
-- the environment.
pub mod Sources
pub mod Layers
pub mod Precedence
pub mod Ages
use gocachez.Prelude.{
  ℕ, suc, ◌+◌, ◌*◌, ◌^◌, Bool, true, false, not, ◌&&◌, ◌||◌, Option, none, some, List, [], ◌∷◌,
  Bytes, same, codes, take, drop, find, length, leb, ◌==◌, if◌then◌else◌,
}
use gocachez.Prelude.Int.{ℤ, pos, ltb_ℤ}
use gocachez.Bytes.{trim_space, trim_suffix, has_suffix}

-- strconv.ParseFloat, time.ParseDuration and strings.ToLower, and what is done with a float: its
-- sign, and its product with a number of units as an `int64`.
pub record Numbers : Type 1 where
  pub Float : Type 0
  pub parse_float : Bytes → Option Float
  pub is_negative : Float → Bool
  pub times : Float → ℕ → ℤ
  pub parse_duration : Bytes → Option ℤ
  pub to_lower : Bytes → Bytes

-- `sizeUnits`
abbrev pub size_units : List (Bytes × ℕ)
size_units =
    (codes "", 1)
    ∷ (codes "b", 1)
    ∷ (codes "k", 2 ^ 10)
    ∷ (codes "kb", 2 ^ 10)
    ∷ (codes "kib", 2 ^ 10)
    ∷ (codes "m", 2 ^ 20)
    ∷ (codes "mb", 2 ^ 20)
    ∷ (codes "mib", 2 ^ 20)
    ∷ (codes "g", 2 ^ 30)
    ∷ (codes "gb", 2 ^ 30)
    ∷ (codes "gib", 2 ^ 30)
    ∷ (codes "t", 2 ^ 40)
    ∷ (codes "tb", 2 ^ 40)
    ∷ (codes "tib", 2 ^ 40)
    ∷ []

-- The bytes that the number of a size is made of: `.`, `-`, `+` and the digits.
unfoldable pub is_number_byte : ℕ → Bool
is_number_byte b = (b == 46) || (b == 45) || (b == 43) || (leb 48 b && leb b 57)

unfoldable pub number_len : Bytes → ℕ
number_len [] = 0
number_len (b ∷ bs) = if is_number_byte b then suc (number_len bs) else 0

-- A day in nanoseconds.
abbrev pub day : ℕ
day = 24 * 3600000000000

-- `defaultMaxAge`
abbrev pub default_max_age : ℤ
default_max_age = pos (5 * day)

module _ (lib : Numbers) where
  unfoldable pub scale_size : Option lib.Float → Option (Bytes × ℕ) → Option ℤ
  scale_size none unit = none
  scale_size (some value) none = none
  scale_size (some value) (some (name, units)) =
      if lib.is_negative value then none else some (lib.times value units)

  -- `parseSize`
  unfoldable pub parse_size : Bytes → Option ℤ
  parse_size text =
      let s = trim_space text in
      let i = number_len s in
      let unit = trim_space (lib.to_lower (drop i s)) in
      if length s == 0
      then none
      else if same s (codes "0")
      then some (pos 0)
      else if i == 0
      then none
      else scale_size (lib.parse_float (take i s)) (find (λ u. same u.0 unit) size_units)

  unfoldable pub refuse_negative : Option ℤ → Option ℤ
  refuse_negative none = none
  refuse_negative (some d) = if ltb_ℤ d (pos 0) then none else some d

  unfoldable pub days : Option lib.Float → Option ℤ
  days none = none
  days (some n) = some (lib.times n day)

  -- `parseAge`
  unfoldable pub parse_age : Bytes → Option ℤ
  parse_age text =
      let s = trim_space text in
      if length s == 0
      then none
      else if same s (codes "0")
      then some (pos 0)
      else refuse_negative (
          if has_suffix s (codes "d")
          then days (lib.parse_float (trim_suffix s (codes "d")))
          else lib.parse_duration s)

-- `config`, less the profiles and `types`, which only flags set.
pub record Config : Type 0 where
  pub dir : Bytes
  pub max_size : ℤ
  pub max_age : ℤ
  pub max_retained_age : ℤ
  pub verbose : Bool

-- `retainedAge`
unfoldable pub retained_age : Config → ℤ
retained_age cfg = if ltb_ℤ (pos 0) cfg.max_retained_age then cfg.max_retained_age else cfg.max_age

-- The settings that one source gives: a field of `fileConfig` that is not null, a variable that is
-- not empty, or a flag that was visited. `verbose` is none within some where it does not parse.
pub record Settings : Type 0 where
  pub dir : Option Bytes
  pub max_size : Option Bytes
  pub max_age : Option Bytes
  pub max_retained_age : Option Bytes
  pub verbose : Option (Option Bool)
