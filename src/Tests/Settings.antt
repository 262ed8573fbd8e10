-- ===== src/Tests/Settings.antt =====
-- The theorems on the configuration, with numbers that are decimal and without a point.
use gocachez.Prelude.{
  ℕ, ◌+◌, ◌*◌, ◌≡◌, refl, none, some, map, true, false, ◌&&◌, leb, codes, same, find, if◌then◌else◌,
}
use gocachez.Prelude.Int.{pos, ◌≤ℤ◌}
use gocachez.Bytes.{
  parse_uint, trim_space, has_suffix, has_prefix, digit, digits_from, is_ascii_space, is_space2,
  is_space3, last_space_width, space_width, trim_by, trim_suffix,
}
use gocachez.Config.{
  Config, Settings, Numbers, retained_age, day, days, parse_size, parse_age, number_len,
  is_number_byte, scale_size, refuse_negative,
}
use gocachez.Config.Sources.{
  Sources, decoded, given, ◌>>=◌, default_config, apply_config_file, apply_settings,
  parse_flag_operands,
}
use gocachez.Config.Precedence.{Decided, parse_flag_operands-Decided}
use gocachez.Config.Ages.{parse_flag_operands-retained_age}

abbrev decimal : Numbers
decimal = record {
  Float = ℕ;
  parse_float = parse_uint 63;
  is_negative = λ _. false;
  times = λ n units. pos (n * units);
  parse_duration = λ _. none;
  to_lower = map (λ b. if leb 65 b && leb b 90 then b + 32 else b);
}

abbrev nothing : Settings
nothing = record {
  dir = none;
  max_size = none;
  max_age = none;
  max_retained_age = none;
  verbose = none;
}

-- The file and a flag both give the age.
abbrev sources : Sources
sources = record {
  default_dir = some (codes "/home/u/.cache/gocachez");
  has_path = true;
  required = false;
  file = decoded (record nothing { max_age = some (codes "9d"); max_size = some (codes "1k") });
  env = record nothing { max_retained_age = some (codes "1d") };
  flags = record nothing { max_age = some (codes "2d") };
  abs = λ d. some d;
}

abbrev accepted : Config
accepted = record {
  dir = codes "/home/u/.cache/gocachez";
  max_size = pos 1024;
  max_age = pos (2 * day);
  max_retained_age = pos day;
  verbose = false;
}

is_accepted : parse_flag_operands decimal sources ≡ some accepted
unfolding parse_flag_operands ◌>>=◌ default_config parse_size trim_space same number_len
    is_number_byte scale_size parse_uint find apply_config_file apply_settings given parse_age
    refuse_negative has_suffix has_prefix digit digits_from is_ascii_space is_space2 is_space3
    last_space_width space_width trim_by trim_suffix days
is_accepted = refl

parse_flag_operands-Decided_example : Decided decimal sources accepted
parse_flag_operands-Decided_example =
    parse_flag_operands-Decided decimal sources accepted is_accepted

parse_flag_operands-retained_age_example :
    (pos 0 ≤ℤ accepted.max_age)
    × (pos 0 ≤ℤ accepted.max_retained_age)
    × (pos 0 ≤ℤ retained_age accepted)
parse_flag_operands-retained_age_example =
    parse_flag_operands-retained_age decimal sources accepted is_accepted
