-- ===== src/Config/Ages.antt =====
-- The ages of an accepted configuration.
use gocachez.Prelude.{
  ◌≡◌, Option, none, some, Bytes, arith, Bool-cases, inl, inr, codes, same, length, ◌==◌,
}
use gocachez.Prelude.Int.{ℤ, pos, ◌≤ℤ◌}
use gocachez.Config.{Config, Numbers, parse_age, refuse_negative, retained_age, default_max_age}
use gocachez.Bytes.{trim_space}
use gocachez.Config.Sources.{Sources, given, parse_flag_operands}
use gocachez.Config.Precedence.{parse_flag_operands-Decided}

refuse_negative_lem :
    (lib : Numbers) (o : Option ℤ) (d : ℤ) → refuse_negative lib o ≡ some d → pos 0 ≤ℤ d
unfolding refuse_negative
refuse_negative_lem lib none d h = absurd (ground arith)
refuse_negative_lem lib (some e) d h = ground arith

parse_age_lem : (lib : Numbers) (text : Bytes) (d : ℤ) → parse_age lib text ≡ some d → pos 0 ≤ℤ d
unfolding parse_age
parse_age_lem lib text d h =
    let s = trim_space text in
    elim (Bool-cases (length s == 0)) [
      | inl t ↦ absurd (ground (arith, t))
      | inr f ↦ elim (Bool-cases (same s (codes "0"))) [
        | inl t ↦ ground (arith, f, t)
        | inr g ↦ refuse_negative_lem lib _ d (rw (f, g) at h)
      ]
    ]

given-parse_age :
    (lib : Numbers) (o : Option Bytes) (x d : ℤ)
    → pos 0 ≤ℤ x
    → given (parse_age lib) o x ≡ some d
    → pos 0 ≤ℤ d
unfolding given
given-parse_age lib none x d le h = ground arith
given-parse_age lib (some text) x d le h = parse_age_lem lib text d h

-- No age of an accepted configuration is negative, whatever the library that reads numbers makes of
-- the text; nor is the age at which retained files expire.
pub parse_flag_operands-retained_age :
    (lib : Numbers) (src : Sources) (cfg : Config)
    → parse_flag_operands lib src ≡ some cfg
    → (pos 0 ≤ℤ cfg.max_age) × (pos 0 ≤ℤ cfg.max_retained_age) × (pos 0 ≤ℤ retained_age cfg)
unfolding retained_age
parse_flag_operands-retained_age lib src cfg h =
    let d = parse_flag_operands-Decided lib src cfg h in
    let age = given-parse_age lib _ default_max_age cfg.max_age (omega arith) d.max_age in
    let retained =
      given-parse_age lib _ (pos 0) cfg.max_retained_age (omega arith) d.max_retained_age in
    (age, retained, ground (arith, age, retained))
